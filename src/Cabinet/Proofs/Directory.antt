-- ===== src/Cabinet/Proofs/Directory.antt =====
-- What a parsed cabinet holds, against the bytes of its header.
use linuxrecomp.Base.{ℕ, ◌+◌, ◌≡◌, List, if◌then◌else◌, leb}
use linuxrecomp.Pe64.Bytes.{field}
use linuxrecomp.Cabinet.{CommonHeader, CabDescriptor, FileDescriptor}
use linuxrecomp.Cabinet.Proofs.Layout.{
  desc_at, counted_directories, counted_files, major_at, IsFile, AreWords,
}

module _ (bytes : List ℕ) where
  IsDescriptor : CabDescriptor → Type 0
  IsDescriptor d =
      (d.file_table_offset ≡ field 4 bytes (desc_at bytes + 0x0C))
      × (d.directory_count ≡ (counted_directories bytes))
      × (d.file_count ≡ (counted_files bytes))
      × (d.file_table_offset2 ≡ field 4 bytes (desc_at bytes + 0x2C))

  module _ (desc : CabDescriptor) (base : ℕ) (table : List ℕ) (names : List (List ℕ))
      (words : (AreWords bytes)
        (desc.directory_count + (if leb (major_at bytes) 5 then desc.file_count else 0))
        base
        table) where
    IsTheFile : ℕ → FileDescriptor → Type 0
    IsTheFile = (IsFile bytes) base desc.directory_count desc.file_table_offset2 names

  -- The common header of the bytes, where there are enough.
  abbrev header_of : CommonHeader
  header_of = record {
    signature = field 4 bytes 0;
    version = field 4 bytes 4;
    volume_info = field 4 bytes 8;
    cab_descriptor_offset = field 4 bytes 12;
    cab_descriptor_size = field 4 bytes 16;
  }
