-- ===== src/Archived/Listing.antt =====
-- Which archived tasks are listed.
use gqueue.Common.{
  ℕ, String, Bool, true, false, ◌||◌, ◌≡◌, refl, sym, ap, ◌∙◌, ◌==◌, string_Eq, Option, none, some,
  List, [], ◌∷◌, ◌++◌, map, keep, Dict, lookup, lookup-insert, if◌then◌else◌, Bool-cases, inl, inr,
  arith,
}
use gqueue.MemStore.{Answer, found, not_found, failed}
use gqueue.Common.{Try, ok, error}
use gqueue.Archived.{
  CacheManager, TaskArchivedData, add_task, entries, note_tasks, archived_of, all_entries,
  after_queues, get_msgs_archived,
}

abbrev pub is_ok : {A : Type 0} → Try A → Bool
is_ok (ok a) = true
is_ok (error err) = false

abbrev pub found_or : {A : Type 0} → Answer A → Option A → Option A
found_or (found a) other = some a
found_or not_found other = other
found_or (failed err) other = other

abbrev pub in_queue : String → String → String × String
in_queue queue task = (queue, task)

abbrev pub has_queue : String → List String → Bool
has_queue q [] = false
has_queue q (x ∷ xs) = x == q || has_queue q xs

module _ {M : Type 0} (unmarshal : List ℕ → Option M) (cm : CacheManager) where
  -- The message of a task can be fetched.
  abbrev pub has_msg : String → String → Bool
  has_msg queue task = is_ok (cm.get_msg_archived_task queue task)

  abbrev pub entry_id : TaskArchivedData M → String × String
  entry_id e = (e.queue, e.id)

  -- The tasks of the map whose messages can be fetched, with their queues.
  abbrev pub listed : Dict String (List String) → List (String × String)
  listed [] = []
  listed ((queue, tasks) ∷ archived) =
      map (in_queue queue) (keep (has_msg queue) tasks) ++ listed archived

  ids-add_task :
      (queue task : String) (tasks : List String) (r : Try (List ℕ))
      (rest : List (TaskArchivedData M))
      → map entry_id (add_task unmarshal cm queue tasks task r rest)
        ≡ (if is_ok r then (queue, task) ∷ map entry_id rest else map entry_id rest)
  ids-add_task queue task tasks (ok raw) rest = refl
  ids-add_task queue task tasks (error err) rest = refl

  map-if :
      (b : Bool) (queue task : String) (rest : List String)
      → map (in_queue queue) (if b then task ∷ rest else rest)
        ≡ (if b then (queue, task) ∷ map (in_queue queue) rest else map (in_queue queue) rest)
  map-if true queue task rest = refl
  map-if false queue task rest = refl

  ids-entries :
      (queue : String) (tasks rest : List String)
      → map entry_id (entries unmarshal cm queue tasks rest)
        ≡ map (in_queue queue) (keep (has_msg queue) rest)
  unfolding entries keep
  ids-entries queue tasks [] = refl
  ids-entries queue tasks (task ∷ rest) =
      ids-add_task queue task tasks (cm.get_msg_archived_task queue task)
        (entries unmarshal cm queue tasks rest)
      ∙ ap (λ l. if has_msg queue task then (queue, task) ∷ l else l) (ids-entries queue tasks rest)
      ∙ sym (map-if (has_msg queue task) queue task (keep (has_msg queue) rest))

  map-concat :
      (xs ys : List (TaskArchivedData M))
      → map entry_id (xs ++ ys) ≡ map entry_id xs ++ map entry_id ys
  map-concat [] ys = refl
  map-concat (x ∷ xs) ys = ap (λ l. entry_id x ∷ l) (map-concat xs ys)

  ids-all_entries :
      (archived : Dict String (List String))
      → map entry_id (all_entries unmarshal cm archived) ≡ listed archived
  unfolding all_entries
  ids-all_entries [] = refl
  ids-all_entries ((queue, tasks) ∷ archived) =
      map-concat (entries unmarshal cm queue tasks tasks) (all_entries unmarshal cm archived)
      ∙ cc (ids-entries queue tasks tasks, ids-all_entries archived)

  lookup-note_tasks :
      (queue q : String) (a : Answer (List String)) (archived : Dict String (List String))
      → lookup q (note_tasks unmarshal cm queue a archived)
        ≡ (if queue == q then found_or a (lookup q archived) else lookup q archived)
  lookup-note_tasks queue q (found tasks) archived = lookup-insert queue q tasks archived
  lookup-note_tasks queue q not_found archived = ground arith
  lookup-note_tasks queue q (failed err) archived = ground arith

  -- What the map has for a queue after the loop.
  abbrev pub noted : String → List String → Option (List String) → Option (List String)
  noted q queues before =
      if has_queue q queues then found_or (cm.find_archived_tasks q) before else before

  lookup-archived_of :
      (q : String) (queues : List String) (archived : Dict String (List String))
      → lookup q (archived_of unmarshal cm queues archived) ≡ noted q queues (lookup q archived)
  unfolding archived_of
  lookup-archived_of q [] archived = refl
  lookup-archived_of q (queue ∷ queues) archived =
      lookup-archived_of q queues
        (note_tasks unmarshal cm queue (cm.find_archived_tasks queue) archived)
      ∙ ap (noted q queues) (lookup-note_tasks queue q (cm.find_archived_tasks queue) archived)
      ∙ (elim (Bool-cases (queue == q)) [
        | inl same ↦
            let e = (string_Eq.same_iff queue q).0 same in
            rw (same, e)
              (twice q (has_queue q queues) (cm.find_archived_tasks q) (lookup q archived))
        | inr differs ↦ rw differs refl
      ])
    where
      twice :
          (q : String) (b : Bool) (a : Answer (List String)) (o : Option (List String))
          → (if b then found_or a (found_or a o) else found_or a o) ≡ found_or a o
      twice q true (found ts) o = refl
      twice q true not_found o = refl
      twice q true (failed err) o = refl
      twice q false a o = refl

  -- Where the queues are known, all archived tasks are listed whose message can be fetched, and no
  -- others, under their queues: the map that is listed has for each of the queues the tasks that it
  -- answered, and nothing for a queue that could not be read or is not among them.
  pub get_msgs_archived-listed :
      (queues : List String)
      → cm.find_all_queues ≡ found queues
      → let archived = archived_of unmarshal cm queues [] in
        (output : List (TaskArchivedData M)) × (get_msgs_archived unmarshal cm ≡ ok output)
        × (map entry_id output ≡ listed archived)
        × ((q : String) → lookup q archived ≡ noted q queues none)
  unfolding get_msgs_archived
  get_msgs_archived-listed queues h =
      let archived = archived_of unmarshal cm queues [] in
      (
        all_entries unmarshal cm archived,
        ap (after_queues unmarshal cm) h,
        ids-all_entries archived,
        (λ q. lookup-archived_of q queues [] ∙ (unfold lookup in refl)),
      )
