-- ===== src/CacheStore/Laws.antt =====
-- What the cache relies on of Redis, and a Redis in memory that has it.
use gqueue.Common.{
  ℕ, String, Bool, false, ◌==◌, string_Eq, Option, none, some, List, [], ◌∷◌, Dict, lookup, insert,
  delete, keep, not, ◌||◌, lookup-insert_self, lookup-delete, ◌≡◌, refl, ap, ◌∙◌, arith,
}
use gqueue.MemStore.{Answer, found, not_found}
use gqueue.CacheStore.{Commands}

pub record IsRedis {S : Type 0} (r : Commands S) : Type 0 where
  -- A value is read back until it expires.
  pub get-set :
      (k v : String) (ttl : ℕ) (s : S)
      → (r.set k v ttl s).1 ≡ none
      → r.get k (r.set k v ttl s).0 ≡ found v
  -- DEL removes its key and no other.
  pub h_get-del :
      (k f : String) (s : S) → (r.del k s).1 ≡ none → r.h_get k f (r.del k s).0 ≡ not_found
  pub h_get-del_other :
      (k j f : String) (s : S) → (k == j) ≡ false → r.h_get j f (r.del k s).0 ≡ r.h_get j f s
  pub z_range-del_other :
      (k j : String) (s : S) → (k == j) ≡ false → r.z_range j (r.del k s).0 ≡ r.z_range j s

pub record Memory : Type 0 where
  pub strings : Dict String String
  pub sets : Dict String (List String)
  pub sorted_sets : Dict String (List String)
  pub hashes : Dict String (Dict String (List ℕ))

abbrev pub present : {A : Type 0} → Option A → Answer A
present none = not_found
present (some a) = found a

abbrev pub members : Option (List String) → List String
members none = []
members (some xs) = xs

abbrev pub field : String → Option (Dict String (List ℕ)) → Answer (List ℕ)
field f none = not_found
field f (some h) = present (lookup f h)

abbrev pub is_in : List String → String → Bool
is_in [] z = false
is_in (m ∷ ms) z = m == z || is_in ms z

deleted : {V : Type 0} (k : String) (d : Dict String V) → lookup k (delete k d) ≡ none
deleted k d = ground (arith, lookup-delete k k d, string_Eq.same_iff k k)

kept :
    {V : Type 0} (k j : String) (d : Dict String V)
    → (k == j) ≡ false
    → lookup j (delete k d) ≡ lookup j d
kept k j d h = lookup-delete k j d ∙ rw h refl

-- A Redis without faults, in which nothing expires; ZREM without members is an error.
abbrev pub z_rem_memory : String → List String → Memory → Memory × Option String
z_rem_memory k [] s = (s, some "wrong number of arguments")
z_rem_memory k (m ∷ ms) s = (
  record s {
    sorted_sets =
        insert k (keep (λ z. not (is_in (m ∷ ms) z)) (members (lookup k s.sorted_sets)))
          s.sorted_sets;
  },
  none,
)

abbrev pub memory : Commands Memory
memory = record {
  get = λ k s. present (lookup k s.strings);
  set = λ k v ttl s. (record s { strings = insert k v s.strings }, none);
  s_members = λ k s. found (members (lookup k s.sets));
  z_range = λ k s. found (members (lookup k s.sorted_sets));
  z_rem = z_rem_memory;
  h_get = λ k f s. field f (lookup k s.hashes);
  del = λ k s. (
    record {
      strings = delete k s.strings;
      sets = delete k s.sets;
      sorted_sets = delete k s.sorted_sets;
      hashes = delete k s.hashes;
    },
    none,
  );
}

pub memory-IsRedis : IsRedis memory
memory-IsRedis = record {
  get-set = λ k v ttl s _. ap present (lookup-insert_self k v s.strings);
  h_get-del = λ k f s _. ap (field f) (deleted k s.hashes);
  h_get-del_other = λ k j f s h. ap (field f) (kept k j s.hashes h);
  z_range-del_other = λ k j s h. ap (λ o. found (members o)) (kept k j s.sorted_sets h);
}
