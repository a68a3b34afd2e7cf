-- ===== src/Files.antt =====
-- hotstuff/manage_data_dirs.cc, hotstuff/block_storage/io_utils.cc and utils/hs_save_load_xdr.h: the
-- files behind the map of blocks, and the other fields of `ReplicaInfo`.
-- The file system and xdrpp are outside of the repository and are parameters. A name is the list of
-- the codes of its characters; a hash is the number that its 32 bytes spell.
pub mod Named
pub mod Shown
use hotstuff.Prelude.{
  ℕ, ◌+◌, ◌/◌, ◌%◌, ltb, ◌==◌, if◌then◌else◌, Option, none, some, List, [], ◌∷◌, ◌++◌, Result, ok,
  throw, ◌>>=◌, or_throw, failed_save, failed_clear, invalid_service,
}
use hotstuff.Foreign.{Foreign}
use hotstuff.Wire.{HotstuffBlockWire}
use hotstuff.Log.{spell, hash_size}

abbrev pub Name : Type 0
Name = List ℕ

-- A file system in states `F`. `fopen` with "r" and the reads up to the end of the file, `none` if
-- it cannot be opened; `fopen` with "w" and one write, `none` if it cannot be opened; `mkdir_safe`
-- of the utils submodule; and `remove_all`, `none` if it reports an error.
pub record FileSystem (F : Type 0) : Type 0 where
  pub read_file : F → Name → Option (List ℕ)
  pub write_file : F → Name → List ℕ → Option F
  pub mkdir_safe : F → Name → F
  pub remove_all : F → Name → Option F

-- `xdr_to_opaque` and `xdr_from_opaque` of a block.
pub record BlockCodec : Type 0 where
  pub to_opaque : HotstuffBlockWire → List ℕ
  pub from_opaque : List ℕ → Result HotstuffBlockWire

-- The fields of `ReplicaInfo` beside its id and its key.
pub record ReplicaAddress : Type 0 where
  pub hostname : Name
  pub block_fetch_port : Name
  pub protocol_port : Name
  pub root_data_folder : Name

unfoldable pub get_hostname : ReplicaAddress → Name
get_hostname info = info.hostname

-- The services are 1 and 2.
unfoldable pub get_service_name : ReplicaAddress → ℕ → Result Name
get_service_name info service =
    if service == 1
    then ok info.block_fetch_port
    else if service == 2
    then ok info.protocol_port
    else throw invalid_service

-- `xdr::tcp_connect` of a host and a service is an argument; `none` if it throws.
unfoldable pub tcp_connect :
    {C : Type 0} → (Name → Name → Option C) → ReplicaAddress → ℕ → Result (Option C)
unfolding get_service_name
tcp_connect connect info service = do
  name ← get_service_name info service
  ok (connect info.hostname name)

-- "hotstuff_block_index/"
abbrev pub index_folder : Name
index_folder =
    104 ∷ 111 ∷ 116 ∷ 115 ∷ 116 ∷ 117 ∷ 102 ∷ 102 ∷ 95 ∷ 98 ∷ 108 ∷ 111 ∷ 99 ∷ 107 ∷ 95 ∷ 105 ∷ 110
    ∷ 100 ∷ 101 ∷ 120 ∷ 47 ∷ []

-- "hotstuff_block_data/"
abbrev pub data_folder : Name
data_folder =
    104 ∷ 111 ∷ 116 ∷ 115 ∷ 116 ∷ 117 ∷ 102 ∷ 102 ∷ 95 ∷ 98 ∷ 108 ∷ 111 ∷ 99 ∷ 107 ∷ 95 ∷ 100 ∷ 97
    ∷ 116 ∷ 97 ∷ 47 ∷ []

-- ".block"
abbrev pub block_suffix : Name
block_suffix = 46 ∷ 98 ∷ 108 ∷ 111 ∷ 99 ∷ 107 ∷ []

unfoldable pub hotstuff_index_lmdb_dir : ReplicaAddress → Name
hotstuff_index_lmdb_dir info = info.root_data_folder ++ index_folder

unfoldable pub hotstuff_block_data_dir : ReplicaAddress → Name
hotstuff_block_data_dir info = info.root_data_folder ++ data_folder

-- The digits 0 to 9 and a to f.
unfoldable pub hex_digit : ℕ → ℕ
hex_digit n = if ltb n 10 then 48 + n else 87 + n

-- Two digits for each byte.
unfoldable pub hex_bytes : List ℕ → Name
unfolding hex_digit
hex_bytes [] = []
hex_bytes (b ∷ bs) = hex_digit (b / 16) ∷ hex_digit (b % 16) ∷ hex_bytes bs

unfoldable pub array_to_str : ℕ → Name
unfolding hex_bytes spell
array_to_str hash = hex_bytes (spell hash_size hash)

-- The name of the block of a header hash.
unfoldable pub block_filename : ReplicaAddress → ℕ → Name
unfolding hotstuff_block_data_dir array_to_str
block_filename info header_hash =
    hotstuff_block_data_dir info ++ array_to_str header_hash ++ block_suffix

module _ {F : Type 0} (s : FileSystem F) where
  unfoldable pub make_hotstuff_dirs : F → ReplicaAddress → F
  unfolding hotstuff_block_data_dir hotstuff_index_lmdb_dir
  make_hotstuff_dirs fs info =
      let root = s.mkdir_safe fs info.root_data_folder in
      s.mkdir_safe (s.mkdir_safe root (hotstuff_block_data_dir info)) (hotstuff_index_lmdb_dir info)

  unfoldable pub clear_hotstuff_dirs : F → ReplicaAddress → Result F
  unfolding hotstuff_block_data_dir hotstuff_index_lmdb_dir
  clear_hotstuff_dirs fs info = do
    no_blocks ← or_throw (s.remove_all fs (hotstuff_block_data_dir info)) failed_clear
    or_throw (s.remove_all no_blocks (hotstuff_index_lmdb_dir info)) failed_clear

  unfoldable pub clear_all_data_dirs : F → ReplicaAddress → Result F
  unfolding clear_hotstuff_dirs
  clear_all_data_dirs fs info = clear_hotstuff_dirs fs info

  unfoldable pub make_all_data_dirs : F → ReplicaAddress → F
  unfolding make_hotstuff_dirs
  make_all_data_dirs fs info = make_hotstuff_dirs fs info

  module _ (c : BlockCodec) where
    -- `none` for the return value -1.
    unfoldable pub load_xdr_from_file : F → Name → Result (Option HotstuffBlockWire)
    load_xdr_from_file fs filename = elim (s.read_file fs filename) [
      | none ↦ ok none
      | some contents ↦ (do output ← c.from_opaque contents; ok (some output))
    ]

    unfoldable pub save_xdr_to_file : F → HotstuffBlockWire → Name → Option F
    save_xdr_to_file fs value filename = s.write_file fs filename (c.to_opaque value)

    unfoldable pub load_block : F → ReplicaAddress → ℕ → Result (Option HotstuffBlockWire)
    unfolding load_xdr_from_file block_filename
    load_block fs info req_header_hash = load_xdr_from_file fs (block_filename info req_header_hash)

    unfoldable pub save_block : ⦃f : Foreign⦄ → F → ReplicaAddress → HotstuffBlockWire → Result F
    unfolding save_xdr_to_file block_filename
    save_block ⦃f⦄ fs info block =
        or_throw (save_xdr_to_file fs block (block_filename info (f.hash_header block.header)))
          failed_save
