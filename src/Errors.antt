-- ===== src/Errors.antt =====
-- errors.go: the errors that the modelled functions return.
pub data Error : Type 0 where
  database_not_open database_open invalid version_mismatch checksum_error timeout : Error
  tx_not_writable tx_closed database_read_only : Error
  bucket_not_found bucket_exists bucket_name_required key_required key_too_large : Error
  value_too_large incompatible_value : Error
  mmap_stat_error file_too_small mmap_too_large unmap_error map_error : Error
  file_resize_error file_sync_error write_error : Error
