-- ===== src/Storests/Laws.antt =====
-- What the store relies on of Redis, while no key expires, and a Redis in memory that has it.
use gqueue.Common.{
  ℕ, String, ◌≡◌, refl, sym, ◌==◌, string_Eq, none, List, [], ◌∷◌, Dict, lookup, insert,
  lookup-insert, lookup-insert_self, or_zero, Bool-cases, inl, inr, subst,
}
use mathlib.Core.List.{Memᴰ}
use gqueue.Common.{ok}
use gqueue.Storests.{Redis}

-- The sets and the sorted sets that a state holds, and what the commands do to them. A command whose
-- answer is an error may have been done or not.
pub record IsRedis {S : Type 0} (r : Redis S) : Type 0 where
  pub sets : S → String → List String
  pub sorted_sets : S → String → List String
  -- Reads answer what is there.
  pub members : (k : String) (s : S) (xs : List String) → r.s_members k s ≡ ok xs → xs ≡ sets s k
  pub range : (k : String) (s : S) (xs : List String) → r.z_range k s ≡ ok xs → xs ≡ sorted_sets s k
  -- Writes that succeed add their member.
  pub s_added :
      (k m : String) (s : S) → (r.s_add k m s).1 ≡ none → Memᴰ m (sets (r.s_add k m s).0 k)
  pub z_added :
      (k m : String) (n : ℕ) (s : S)
      → (r.z_add k n m s).1 ≡ none
      → Memᴰ m (sorted_sets (r.z_add k n m s).0 k)
  -- Writes keep every member that is there.
  pub s_add_keeps :
      (k m j x : String) (s : S)
      → (Memᴰ x (sets s j) → Memᴰ x (sets (r.s_add k m s).0 j))
        × (Memᴰ x (sorted_sets s j) → Memᴰ x (sorted_sets (r.s_add k m s).0 j))
  pub z_add_keeps :
      (k m j x : String) (n : ℕ) (s : S)
      → (Memᴰ x (sets s j) → Memᴰ x (sets (r.z_add k n m s).0 j))
        × (Memᴰ x (sorted_sets s j) → Memᴰ x (sorted_sets (r.z_add k n m s).0 j))
  pub expire_keeps :
      (k j x : String) (s : S)
      → (Memᴰ x (sets s j) → Memᴰ x (sets (r.expire k s).0 j))
        × (Memᴰ x (sorted_sets s j) → Memᴰ x (sorted_sets (r.expire k s).0 j))

-- A Redis without faults. Its sorted sets are not sorted, on which nothing relies.
pub record Memory : Type 0 where
  pub sets : Dict String (List String)
  pub sorted_sets : Dict String (List String)

abbrev pub at : String → Dict String (List String) → List String
at k m = or_zero [] (lookup k m)

abbrev pub put : String → String → Dict String (List String) → Dict String (List String)
put k m d = insert k (m ∷ at k d) d

abbrev pub memory : Redis Memory
memory = record {
  s_add = λ k m s. (record s { sets = put k m s.sets }, none);
  expire = λ k s. (s, none);
  z_add = λ k n m s. (record s { sorted_sets = put k m s.sorted_sets }, none);
  s_members = λ k s. ok (at k s.sets);
  z_range = λ k s. ok (at k s.sorted_sets);
}

at-put : (k m : String) (d : Dict String (List String)) → Memᴰ m (at k (put k m d))
at-put k m d = rw (lookup-insert_self k (m ∷ at k d) d) (Memᴰ.head refl)

put_keeps :
    (k m j x : String) (d : Dict String (List String)) → Memᴰ x (at j d) → Memᴰ x (at j (put k m d))
put_keeps k m j x d h = elim (Bool-cases (k == j)) [
  | inl same ↦
      rw (lookup-insert k j (m ∷ at k d) d, same)
        (Memᴰ.tail (subst (λ i. Memᴰ x (at i d)) (sym ((string_Eq.same_iff k j).0 same)) h))
  | inr differs ↦ rw (lookup-insert k j (m ∷ at k d) d, differs) h
]

pub memory-IsRedis : IsRedis memory
memory-IsRedis = record {
  sets = λ s k. at k s.sets;
  sorted_sets = λ s k. at k s.sorted_sets;
  members = λ k s xs h. cc h;
  range = λ k s xs h. cc h;
  s_added = λ k m s _. at-put k m s.sets;
  z_added = λ k m n s _. at-put k m s.sorted_sets;
  s_add_keeps = λ k m j x s. ((λ h. put_keeps k m j x s.sets h), (λ h. h));
  z_add_keeps = λ k m j x n s. ((λ h. h), (λ h. put_keeps k m j x s.sorted_sets h));
  expire_keeps = λ k j x s. ((λ h. h), (λ h. h));
}
