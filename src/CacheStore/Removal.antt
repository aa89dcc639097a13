-- ===== src/CacheStore/Removal.antt =====
-- What the listings of the archived tasks show after a write of the cache.
use Prim.Native.String.{[] as nil, ◌∷◌ as cons}
use gqueue.Common.{
  ℕ, String, true, false, not, ◌==◌, string_Eq, Option, none, some, List, [], ◌∷◌, keep, Try, ok,
  error, Option-cases, ◌≡◌, refl, sym, ap, ◌∙◌, inl, inr, Bool-cases, arith, code, subst,
}
use mathlib.Core.Bool.{true≢false}
use gqueue.Topic.{append}
use gqueue.Event.{Event}
use gqueue.MemStore.{Answer, found, not_found, failed}
use gqueue.RawMsg.{msg}
use gqueue.Archived.{TaskArchivedData, add_task, entries, after_tasks, get_all_msgs_by_queue}
use gqueue.CacheStore.{
  Commands, archived_key, zrange_key, archived_task_key, wrapped, after_h_get, after_z_range,
  get_msg_archived_task, find_archived_tasks, remove, remove_msg_archived_task, set_archived_tasks,
  find_all_consumers, cache_manager, redis_nil, after_marshal, after_get, after_unmarshal,
}
use gqueue.CacheStore.Laws.{IsRedis}

abbrev text_tail : String → String
text_tail nil = nil
text_tail (cons c s) = s

abbrev first_code : String → ℕ
first_code nil = 0
first_code (cons c s) = code c

append-cancel : (a b c : String) → append a b ≡ append a c → b ≡ c
unfolding append
append-cancel nil b c h = h
append-cancel (cons d a) b c h = append-cancel a b c (ap text_tail h)

abbrev third_code : String → ℕ
third_code s = first_code (text_tail (text_tail s))

differ_at_third : (s t : String) → third_code s ≡ 116 → third_code t ≡ 97 → s ≡ t → ⊥
differ_at_third s t h k e = omega (arith, h, k, ap third_code e)

-- The key of a task's message is not that of the queue's set, and is another for another task.
keys_differ : (queue task : String) → archived_task_key queue task ≡ zrange_key queue → ⊥
unfolding archived_task_key zrange_key
keys_differ queue task h =
    differ_at_third (append "}:t:" task) "}:archived" refl refl
      (append-cancel queue _ _ (append-cancel "asynq:{" _ _ h))

task_keys : (queue t u : String) → archived_task_key queue t ≡ archived_task_key queue u → t ≡ u
unfolding archived_task_key
task_keys queue t u h =
    append-cancel "}:t:" t u (append-cancel queue _ _ (append-cancel "asynq:{" _ _ h))

differs : (a b : String) → (a ≡ b → ⊥) → (a == b) ≡ false
differs a b h = elim (Bool-cases (a == b)) [
  | inl e ↦ absurd (h ((string_Eq.same_iff a b).0 e))
  | inr e ↦ e
]

abbrev pub without :
    {M : Type 0} → String → Try (List (TaskArchivedData M)) → Try (List (TaskArchivedData M))
without task (ok ds) = ok (keep (λ d. not (d.id == task)) ds)
without task (error err) = error err

module _ {S : Type 0} (redis : Commands S) (laws : IsRedis redis) (queue task : String)
    (s : S) where
  abbrev after : S
  after = (remove_msg_archived_task redis queue task s).0

  abbrev key : String
  key = archived_task_key queue task

  -- The command has gone well where the operation has.
  del_succeeds : (remove_msg_archived_task redis queue task s).1 ≡ none → (redis.del key s).1 ≡ none
  unfolding remove_msg_archived_task remove
  del_succeeds h = elim (Option-cases (redis.del key s).1) [
    | inl e ↦ e
    | inr (err, e) ↦ absurd (ground (arith, h, e))
  ]

  after-del : after ≡ (redis.del key s).0
  unfolding remove_msg_archived_task remove
  after-del = refl

  message_gone :
      (remove_msg_archived_task redis queue task s).1 ≡ none
      → get_msg_archived_task redis queue task after
        ≡ error (append "failed to fetch DLQ task: " redis_nil)
  unfolding get_msg_archived_task
  message_gone h =
      ap (λ t. after_h_get redis (redis.h_get key "msg" t)) after-del
      ∙ ap (after_h_get redis) (laws.h_get-del key "msg" s (del_succeeds h))

  message_kept :
      (u : String)
      → (task == u) ≡ false
      → get_msg_archived_task redis queue u after ≡ get_msg_archived_task redis queue u s
  unfolding get_msg_archived_task
  message_kept u h =
      ap (λ t. after_h_get redis (redis.h_get (archived_task_key queue u) "msg" t)) after-del
      ∙ ap (after_h_get redis) (
          laws.h_get-del_other key (archived_task_key queue u) "msg" s (
            differs key (archived_task_key queue u) (λ e.
              true≢false (sym ((string_Eq.same_iff task u).1 (task_keys queue task u e)) ∙ h))))

  tasks_kept : find_archived_tasks redis queue after ≡ find_archived_tasks redis queue s
  unfolding find_archived_tasks
  tasks_kept =
      ap (λ t. after_z_range redis (redis.z_range (zrange_key queue) t)) after-del
      ∙ ap (after_z_range redis) (
          laws.z_range-del_other key (zrange_key queue) s
            (differs key (zrange_key queue) (keys_differ queue task)))

  module _ {M : Type 0} (unmarshal : List ℕ → Option M)
      (removed : (remove_msg_archived_task redis queue task s).1 ≡ none) where
    abbrev others : List (TaskArchivedData M) → List (TaskArchivedData M)
    others ds = keep (λ d. not (d.id == task)) ds

    add_task_same :
        (tasks : List String) (r : Try (List ℕ)) (u : String) (rest : List (TaskArchivedData M))
        → (u == task) ≡ true
        → others (add_task unmarshal (cache_manager redis s) queue tasks u r rest) ≡ others rest
    unfolding keep
    add_task_same tasks (ok raw) u rest h = rw h refl
    add_task_same tasks (error err) u rest h = refl

    add_task_other :
        (tasks : List String) (r : Try (List ℕ)) (u : String) (new old : List (TaskArchivedData M))
        → (u == task) ≡ false
        → new ≡ others old
        → add_task unmarshal (cache_manager redis after) queue tasks u r new
          ≡ others (add_task unmarshal (cache_manager redis s) queue tasks u r old)
    unfolding keep
    add_task_other tasks (ok raw) u new old h e =
        rw h (
          ap (λ ds. record { id = u; queue = queue; msg = msg unmarshal raw; tasks = tasks } ∷ ds)
            e)
    add_task_other tasks (error err) u new old h e = e

    same_gone :
        (u : String)
        → (u == task) ≡ true
        → get_msg_archived_task redis queue u after
          ≡ error (append "failed to fetch DLQ task: " redis_nil)
    same_gone u h =
        subst
          (λ v.
            get_msg_archived_task redis queue v after
            ≡ error (append "failed to fetch DLQ task: " redis_nil))
          (sym ((string_Eq.same_iff u task).0 h)) (message_gone removed)

    entries-others :
        (tasks us : List String)
        → entries unmarshal (cache_manager redis after) queue tasks us
          ≡ others (entries unmarshal (cache_manager redis s) queue tasks us)
    unfolding entries keep
    entries-others tasks [] = refl
    entries-others tasks (u ∷ us) =
        let new = entries unmarshal (cache_manager redis after) queue tasks us in
        let old = entries unmarshal (cache_manager redis s) queue tasks us in
        elim (Bool-cases (u == task)) [
          | inl same ↦
              ap (λ r. add_task unmarshal (cache_manager redis after) queue tasks u r new)
                (same_gone u same)
              ∙ entries-others tasks us
              ∙ sym (add_task_same tasks (get_msg_archived_task redis queue u s) u old same)
          | inr other ↦
              ap (λ r. add_task unmarshal (cache_manager redis after) queue tasks u r new)
                (message_kept u
                  (ground (arith, other, string_Eq.same_iff u task, string_Eq.same_iff task u)))
              ∙ add_task_other tasks (get_msg_archived_task redis queue u s) u new old other
                  (entries-others tasks us)
        ]

    after_tasks-without :
        (o : Answer (List String))
        → after_tasks unmarshal (cache_manager redis after) queue o
          ≡ without task (after_tasks unmarshal (cache_manager redis s) queue o)
    unfolding keep
    after_tasks-without (found tasks) = ap ok (entries-others tasks tasks)
    after_tasks-without not_found = refl
    after_tasks-without (failed err) = refl

    -- On a Redis whose DEL removes its key and no other, after a task's message was removed without
    -- an error the listing of its queue is what it was before, without that task.
    pub get_all_msgs_by_queue-removed :
        get_all_msgs_by_queue unmarshal (cache_manager redis after) queue
        ≡ without task (get_all_msgs_by_queue unmarshal (cache_manager redis s) queue)
    unfolding get_all_msgs_by_queue
    get_all_msgs_by_queue-removed =
        ap (after_tasks unmarshal (cache_manager redis after) queue) tasks_kept
        ∙ after_tasks-without (find_archived_tasks redis queue s)

-- What SetArchivedTasks stores without an error, FindAllConsumers finds, on a Redis that reads back
-- what it was given, where the codec decodes what it encoded.
pub find_all_consumers-set_archived_tasks :
    {S : Type 0} (redis : Commands S) (laws : IsRedis redis)
    → (marshal : List Event → Try String) (unmarshal : String → Try (List Event))
    → (ttl : ℕ) (events : List Event) (b : String) (s : S) → marshal events ≡ ok b
    → unmarshal b ≡ ok events
    → (set_archived_tasks redis marshal ttl events s).1 ≡ none
    → find_all_consumers redis unmarshal (set_archived_tasks redis marshal ttl events s).0
      ≡ found events
unfolding find_all_consumers set_archived_tasks
find_all_consumers-set_archived_tasks redis laws marshal unmarshal ttl events b s m u h =
    ap (λ r. after_get redis unmarshal (redis.get archived_key (after_marshal redis ttl r s).0)) m
    ∙ ap (after_get redis unmarshal) (
        laws.get-set archived_key b ttl s (
          unwrapped (redis.set archived_key b ttl s).1
            (ap (λ r. (after_marshal redis ttl r s).1) (sym m) ∙ h)))
    ∙ ap (after_unmarshal redis unmarshal) u
  where
    unwrapped : (o : Option String) → wrapped "failed to set archived tasks: " o ≡ none → o ≡ none
    unwrapped none e = refl
    unwrapped (some err) e = absurd (ground (arith, e))
