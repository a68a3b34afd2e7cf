-- ===== src/Log/Cursor.antt =====
-- The cursor of hotstuff/lmdb.h and the iterator of hotstuff/log_access_wrapper.cc, which passes its
-- calls on to it. An iterator is what it has still to yield; LMDB moves it.
use hotstuff.Prelude.{
  ℕ, zero, suc, ◌≡◌, refl, inl, inr, Bool, true, false, List, [], ◌∷◌, length, if◌then◌else◌,
  Result, Result-cases, ok, throw, ◌>>=◌, null_pointer, out_of_fuel,
}
use hotstuff.Vm.{VmBlockId}
use hotstuff.Log.{Lmdb, Encoding, data_dbi, read_entry, get_hs_hash_and_vm_data}

abbrev pub Iterator : Type 0
Iterator = List (List ℕ × List ℕ)

unfoldable pub begin : {E W : Type 0} → Lmdb E W → E → Iterator
begin l e = l.entries e data_dbi

unfoldable pub end : Iterator
end = []

-- `operator==` against `end`, the only use that it is made for.
unfoldable pub is_end : Iterator → Bool
is_end [] = true
is_end (_ ∷ _) = false

unfoldable pub increment : Iterator → Result Iterator
increment [] = throw null_pointer
increment (_ ∷ it) = ok it

-- What the iterator stands on.
unfoldable pub current : Iterator → Result (List ℕ × List ℕ)
current [] = throw null_pointer
current (entry ∷ _) = ok entry

unfoldable pub current_height_and_hash : Encoding → Iterator → Result (ℕ × ℕ)
unfolding current read_entry
current_height_and_hash c it = do entry ← current it; read_entry c entry

unfoldable pub current_hash_and_vm_data : Iterator → Result (ℕ × VmBlockId)
unfolding current get_hs_hash_and_vm_data
current_hash_and_vm_data it = do entry ← current it; get_hs_hash_and_vm_data entry

-- A loop from an iterator to the end, whose body reads the entry that the iterator stands on; the
-- fuel bounds its rounds.
unfoldable pub for_each :
    {A : Type 0} → ℕ → Iterator → (A → List ℕ × List ℕ → Result A) → A → Result A
unfolding is_end current increment
for_each zero it body a = throw out_of_fuel
for_each (suc fuel) it body a =
    let round = (do
      entry ← current it
      next ← body a entry
      further ← increment it
      for_each fuel further body next) in
    if is_end it then ok a else round

-- The entries in turn.
abbrev pub visit : {A : Type 0} → (A → List ℕ × List ℕ → Result A) → A → Iterator → Result A
visit body a [] = ok a
visit body a (entry ∷ it) = do next ← body a entry; visit body next it

-- With fuel above the number of entries the loop ends, and has run its body on each in turn.
pub for_each-visit :
    {A : Type 0} (body : A → List ℕ × List ℕ → Result A) (it : Iterator) (a : A)
    → for_each (suc (length it)) it body a ≡ visit body a it
unfolding for_each is_end current increment
for_each-visit body [] a = refl
for_each-visit body (entry ∷ it) a = elim (Result-cases (body a entry)) [
  | inl (next, e) ↦ rw e (for_each-visit body it next)
  | inr (fault, e) ↦ rw e refl
]
