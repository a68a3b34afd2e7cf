-- ===== src/Files/Shown.antt =====
-- The files show a map from hashes to blocks, which `save_block` updates at one hash.
use hotstuff.Prelude.{
  ℕ, ◌^◌, ◌<◌, ◌≡◌, ◌≢◌, refl, ◌∙◌, inl, inr, some, false, List, ◌==◌, ==_iff, ==_refl, Bool-cases,
  ok,
}
use hotstuff.Foreign.{Foreign}
use hotstuff.Wire.{HotstuffBlockWire}
use hotstuff.Block.{Disk}
use hotstuff.Block
use hotstuff.Log.{hash_size}
use hotstuff.Files.{
  Name, FileSystem, BlockCodec, ReplicaAddress, block_filename, load_xdr_from_file,
  save_xdr_to_file, load_block, save_block,
}
use hotstuff.Files.Named.{block_filename-injective}

-- A file has what was written last to it, and a write leaves the other files as they are.
pub record IsFileSystem {F : Type 0} (s : FileSystem F) : Type 0 where
  pub same :
      (fs fs' : F) (name : Name) (contents : List ℕ)
      → s.write_file fs name contents ≡ some fs'
      → s.read_file fs' name ≡ some contents
  pub other :
      (fs fs' : F) (name other : Name) (contents : List ℕ)
      → s.write_file fs name contents ≡ some fs'
      → name ≢ other
      → s.read_file fs' other ≡ s.read_file fs other

-- Blocks are read back.
abbrev pub IsBlockCodec : BlockCodec → Type 0
IsBlockCodec c = (w : HotstuffBlockWire) → c.from_opaque (c.to_opaque w) ≡ ok w

module _ {F : Type 0} (s : FileSystem F) (c : BlockCodec) (info : ReplicaAddress) where
  -- Each hash of 32 bytes loads the block that the map has for it.
  abbrev pub Shows : F → Disk → Type 0
  Shows fs disk = (hash : ℕ) → hash < 256 ^ hash_size → load_block s c fs info hash ≡ ok (disk hash)

  read-same :
      (fs : F) (name : Name) (contents : List ℕ) (w : HotstuffBlockWire)
      → s.read_file fs name ≡ some contents
      → c.from_opaque contents ≡ ok w
      → load_xdr_from_file s c fs name ≡ ok (some w)
  unfolding load_xdr_from_file
  read-same fs name contents w found read = rw (load_xdr_from_file, found, read) refl

  read-other :
      (fs fs' : F) (name : Name)
      → s.read_file fs' name ≡ s.read_file fs name
      → load_xdr_from_file s c fs' name ≡ load_xdr_from_file s c fs name
  unfolding load_xdr_from_file
  read-other fs fs' name e = rw (load_xdr_from_file, e) refl

  module _ ⦃f : Foreign⦄ (files : IsFileSystem s) (codec : IsBlockCodec c) where
    -- On a file system where a file has what was written last to it and a write leaves the other
    -- files as they are, with an encoding of blocks that is read back: if each hash of 32 bytes
    -- loads the block that a map has for it, and the file of a block whose header has such a hash
    -- can be opened, then `save_block` returns, and each such hash loads what the map has for it
    -- after the block is saved in the map, so that no two of them share a file.
    pub save_block-Shows :
        (fs fs' : F) (disk : Disk) (w : HotstuffBlockWire)
        → Shows fs disk
        → f.hash_header w.header < 256 ^ hash_size
        → s.write_file fs (block_filename info (f.hash_header w.header)) (c.to_opaque w) ≡ some fs'
        → (save_block s c fs info w ≡ ok fs') × Shows fs' (Block.save_block disk w)
    unfolding save_block save_xdr_to_file load_block Block.save_block
    save_block-Shows fs fs' disk w shows fits written = (
      rw written refl,
      λ hash low. elim (Bool-cases (f.hash_header w.header == hash)) [
        | inl same ↦
            let at : f.hash_header w.header ≡ hash = (==_iff _ _).0 same in
            let name = files.same fs fs' _ (c.to_opaque w) written in
            rw same
              (read-same fs' (block_filename info hash) (c.to_opaque w) w (rw at at name) (codec w))
        | inr other ↦
            let apart : block_filename info (f.hash_header w.header) ≢ block_filename info hash =
              λ e.
                differs (f.hash_header w.header) hash other
                  (block_filename-injective info _ hash fits low e) in
            let old =
              files.other fs fs' _ (block_filename info hash) (c.to_opaque w) written apart in
            rw other (read-other fs fs' (block_filename info hash) old ∙ shows hash low)
      ],
    )
      where
        differs : (a b : ℕ) → (a == b) ≡ false → a ≢ b
        differs a b e at = cc (rw at at e, ==_refl b)
