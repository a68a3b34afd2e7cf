-- ===== src/Examples/Records.antt =====
-- The log over a database that is a function, at concrete inputs.
use mathlib.Core.List.{append-nil}
use hotstuff.Prelude.{
  ℕ, ◌<◌, ◌^◌, ◌≡◌, refl, sym, ◌∙◌, ap, inl, inr, Option, none, some, Bool, true, false, ◌&&◌, List,
  [], ◌∷◌, arith, ◌==◌, ==_iff, ==_refl, if◌then◌else◌, Bool-cases, Result, ok, throw, short_value,
}
use hotstuff.Wire.{QuorumCertificateWire}
use hotstuff.Block.{get_hash}
use hotstuff.Vm.{same_bytes}
use hotstuff.Log.{
  Dbi, data_dbi, meta_dbi, Lmdb, Encoding, spell, spelled, get_hs_hash_and_vm_data, decided_value,
}
use hotstuff.Log.Written.{
  spelled-spell, IsLmdb, IsLogged, commit-IsLogged, get_hs_hash_and_vm_data-decided_value,
}
use hotstuff.Examples.Toy.{toy, chain_heap, qc_on}

abbrev pub Table : Type 0
Table = Dbi → List ℕ → Option (List ℕ)

abbrev pub same_table : Dbi → Dbi → Bool
same_table data_dbi data_dbi = true
same_table data_dbi meta_dbi = false
same_table meta_dbi data_dbi = false
same_table meta_dbi meta_dbi = true

abbrev pub tables : Lmdb Table Table
tables = record {
  wbegin = λ e. e;
  put = λ w d k v d' k'. if same_table d d' && same_bytes k k' then some v else w d' k';
  commit_wtxn = λ e w n. w;
  get = λ e d k. e d k;
  get_persisted_round_number = λ e. 0;
  entries = λ e d. [];
}

abbrev pub read_qc : List ℕ → Result QuorumCertificateWire
read_qc [] = throw short_value
read_qc (justify ∷ []) = throw short_value
read_qc (justify ∷ bmp ∷ sigs) = ok (record { justify = justify; bmp = bmp; sigs = sigs })

abbrev pub bytes : Encoding
bytes = record {
  write_big_endian = spell 8;
  read_big_endian = spelled 0;
  qc_to_opaque = λ q. q.justify ∷ q.bmp ∷ q.sigs;
  qc_from_opaque = read_qc;
  qc_key = 113 ∷ 99 ∷ [];
}

pub same_bytes_self : (k : List ℕ) → same_bytes k k ≡ true
unfolding same_bytes
same_bytes_self [] = refl
same_bytes_self (x ∷ k) = rw (==_refl x) (same_bytes_self k)

pub same_bytes_sound : (k l : List ℕ) → same_bytes k l ≡ true → k ≡ l
unfolding same_bytes
same_bytes_sound [] [] e = refl
same_bytes_sound [] (y ∷ l) e = cc
same_bytes_sound (x ∷ k) [] e = cc
same_bytes_sound (x ∷ k) (y ∷ l) e = elim (Bool-cases (x == y)) [
  | inl same ↦
      let at : x ≡ y = (==_iff x y).0 same in rw (at, same_bytes_sound k l (rw same at e)) refl
  | inr other ↦ cc (rw other at e)
]

same_table_self : (d : Dbi) → same_table d d ≡ true
same_table_self data_dbi = refl
same_table_self meta_dbi = refl

same_table_sound : (d d' : Dbi) → same_table d d' ≡ true → d ≡ d'
same_table_sound data_dbi data_dbi e = refl
same_table_sound data_dbi meta_dbi e = cc
same_table_sound meta_dbi data_dbi e = cc
same_table_sound meta_dbi meta_dbi e = refl

eight_read : (h : ℕ) → h < 2 ^ 64 → spelled 0 (spell 8 h) ≡ h
unfolding spelled
eight_read h low =
    ap (spelled 0) (sym (append-nil (spell 8 h))) ∙ spelled-spell 8 h [] (omega (arith, low))

pub tables-IsLmdb : IsLmdb tables bytes
tables-IsLmdb = record {
  view = λ w d k. w d k;
  begun = λ e d k. refl;
  put_same = λ w d k v. rw (same_table_self d, same_bytes_self k) refl;
  put_other = λ w d d' k k' v ne. elim (Bool-cases (same_table d d')) [
    | inr other ↦ rw other refl
    | inl same ↦ elim (Bool-cases (same_bytes k k')) [
      | inr other ↦ rw (same, other) refl
      | inl alike ↦ elim ne [
        | inl apart ↦ absurd (apart (same_table_sound d d' same))
        | inr apart ↦ absurd (apart (same_bytes_sound k k' alike))
      ]
    ]
  ];
  committed = λ e w n d k. refl;
  qc_read = λ q. refl;
  heights_apart = λ h h' low low' e. sym (eight_read h low) ∙ ap (spelled 0) e ∙ eight_read h' low';
}

abbrev no_entries : Table
no_entries d k = none

commit-IsLogged_example : IsLogged tables bytes no_entries (chain_heap 2) (some (7 ∷ [])) (qc_on 1)
unfolding get_hash
commit-IsLogged_example =
    commit-IsLogged tables bytes tables-IsLmdb no_entries (chain_heap 2) (some (7 ∷ [])) (qc_on 1)
      (omega arith) (omega arith)

get_hs_hash_and_vm_data-decided_value_example :
    get_hs_hash_and_vm_data ([], decided_value (chain_heap 2) (7 ∷ []))
    ≡ ok (get_hash (chain_heap 2), some (7 ∷ []))
unfolding get_hash
get_hs_hash_and_vm_data-decided_value_example =
    get_hs_hash_and_vm_data-decided_value (chain_heap 2) (7 ∷ []) (omega arith) []
