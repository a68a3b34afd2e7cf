-- ===== src/Examples/Folders.antt =====
-- The files of blocks at concrete inputs.
use hotstuff.Prelude.{
  ℕ, ◌≡◌, refl, sym, ap, ◌∙◌, Option, none, some, List, [], ◌∷◌, ◌++◌, length, arith, if◌then◌else◌,
  Bool-cases, inl, inr, Result, ok, throw, short_value, invalid_service,
}
use hotstuff.Wire.{HotstuffBlockWire}
use hotstuff.Block.{Disk}
use hotstuff.Block
use hotstuff.Vm.{same_bytes}
use hotstuff.Log.{split_at}
use hotstuff.Log.Written.{split_at-append}
use hotstuff.Files.{
  Name, FileSystem, BlockCodec, ReplicaAddress, get_service_name, hex_bytes, hex_digit,
  block_filename, load_block, load_xdr_from_file, save_block,
}
use hotstuff.Files.Shown.{IsFileSystem, IsBlockCodec, Shows, save_block-Shows}
use hotstuff.Examples.Toy.{toy, wire_of}
use hotstuff.Examples.Records.{same_bytes_self, same_bytes_sound}

abbrev Folder : Type 0
Folder = Name → Option (List ℕ)

abbrev folders : FileSystem Folder
folders = record {
  read_file = λ fs name. fs name;
  write_file = λ fs name contents. some (λ n. if same_bytes name n then some contents else fs n);
  mkdir_safe = λ fs name. fs;
  remove_all = λ fs name. some (λ n. none);
}

folders-IsFileSystem : IsFileSystem folders
folders-IsFileSystem = record {
  same = λ fs fs' name contents e.
      let at : (λ (n : Name). if same_bytes name n then some contents else fs n) ≡ fs' = cc in
      ap (λ (g : Folder). g name) (sym at) ∙ rw (same_bytes_self name) refl;
  other = λ fs fs' name n contents e ne.
      let at : (λ (n : Name). if same_bytes name n then some contents else fs n) ≡ fs' = cc in
      ap (λ (g : Folder). g n) (sym at) ∙ elim (Bool-cases (same_bytes name n)) [
        | inl same ↦ absurd (ne (same_bytes_sound name n same))
        | inr apart ↦ rw apart refl
      ];
}

abbrev encode : HotstuffBlockWire → List ℕ
encode w =
    w.header.parent_hash
    ∷ w.header.qc.justify
    ∷ w.header.qc.bmp
    ∷ w.header.body_hash
    ∷ length w.header.qc.sigs
    ∷ (w.header.qc.sigs ++ w.body)

abbrev decode : List ℕ → Result HotstuffBlockWire
decode (parent ∷ justify ∷ bmp ∷ body_hash ∷ sigs ∷ rest) = ok (record {
  header = record {
    parent_hash = parent;
    qc = record { justify = justify; bmp = bmp; sigs = (split_at sigs rest).0 };
    body_hash = body_hash;
  };
  body = (split_at sigs rest).1;
})
decode _ = throw short_value

abbrev codec : BlockCodec
codec = record { to_opaque = encode; from_opaque = decode }

codec-IsBlockCodec : IsBlockCodec codec
codec-IsBlockCodec w = rw (split_at-append w.header.qc.sigs w.body) refl

abbrev address : ReplicaAddress
address = record {
  hostname = 104 ∷ [];
  block_fetch_port = 57 ∷ [];
  protocol_port = 56 ∷ [];
  root_data_folder = 47 ∷ [];
}

abbrev no_files : Folder
no_files name = none

nothing-Shows : Shows folders codec address no_files (λ hash. none)
unfolding load_block load_xdr_from_file
nothing-Shows hash low = refl

abbrev one_file : Folder
one_file n = if same_bytes (block_filename address 1) n then some (encode (wire_of 0)) else none

save_block-Shows_example :
    (save_block folders codec no_files address (wire_of 0) ≡ ok one_file)
    × Shows folders codec address one_file (Block.save_block (λ hash. none) (wire_of 0))
save_block-Shows_example =
    save_block-Shows folders codec address folders-IsFileSystem codec-IsBlockCodec no_files one_file
      (λ hash. none) (wire_of 0) nothing-Shows (omega arith) refl

hex : hex_bytes (0 ∷ 175 ∷ []) ≡ 48 ∷ 48 ∷ 97 ∷ 102 ∷ []
unfolding hex_bytes hex_digit
hex = refl

services :
    (get_service_name address 1 ≡ ok (57 ∷ []))
    × (get_service_name address 2 ≡ ok (56 ∷ []))
    × (get_service_name address 3 ≡ throw invalid_service)
unfolding get_service_name
services = (refl, refl, refl)
