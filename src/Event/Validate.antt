-- ===== src/Event/Validate.antt =====
-- What `Event.Validate` accepts.
use gqueue.Common.{
  ℕ, ◌≤◌, String, Bool, true, ◌≡◌, ◌↔◌, ◌⊎◌, length, Option, none, arith, ℤ, pos, negsuc, string_Eq,
  refl, is_negative, ◌||◌, false, ◌==◌, List, inl, inr, some, if◌then◌else◌,
}
use gqueue.Event.{
  Invalid, event_type, Consumer, Opt, Event, wq_type_known, validate_opt, validate_consumers,
  validate, above_five, or_else,
}

-- The queue types that the program knows.
abbrev pub IsWqType : String → Type 0
IsWqType wt = (wt ≡ "low_throughput") ⊎ ((wt ≡ "high_throughput") ⊎ (wt ≡ "low_latency"))

-- 0 to 5 retries.
abbrev pub IsRetryCount : ℤ → Type 0
IsRetryCount (pos k) = k ≤ 5
IsRetryCount (negsuc k) = ⊥

pub record IsValidEvent (max_consumers : ℕ) (e : Event) : Type 0 where
  pub known_type : (e.type ≡ "internal") ⊎ (e.type ≡ "external")
  pub known_queue : IsWqType e.option.wq_type
  pub retries : IsRetryCount e.option.max_retries
  pub some_consumer : 1 ≤ length e.consumers
  pub few_consumers : length e.consumers ≤ max_consumers

wq_type_known_iff : (wt : String) → (wq_type_known wt ≡ true) ↔ IsWqType wt
unfolding wq_type_known
wq_type_known_iff wt = ground (
  arith,
  string_Eq.same_iff wt "low_throughput",
  string_Eq.same_iff wt "high_throughput",
  string_Eq.same_iff wt "low_latency",
)

IsRetryCount-iff : (n : ℤ) → (is_negative n || above_five n ≡ false) ↔ IsRetryCount n
IsRetryCount-iff (pos k) = ground arith
IsRetryCount-iff (negsuc k) = ground arith

wq_type_known_full : (wt : String) → wq_type_known wt ≡ true → (wt == "") ≡ false
unfolding wq_type_known
wq_type_known_full wt h = elim ((wq_type_known_iff wt).0 h) [
  | inl e ↦ rw e refl
  | inr (inl e) ↦ rw e refl
  | inr (inr e) ↦ rw e refl
]

validate_opt_iff :
    (o : Opt) → (validate_opt o ≡ none) ↔ (IsWqType o.wq_type × IsRetryCount o.max_retries)
unfolding validate_opt
validate_opt_iff o = ground (
  arith,
  wq_type_known_iff o.wq_type,
  IsRetryCount-iff o.max_retries,
  wq_type_known_full o.wq_type,
)

validate_consumers_iff :
    (m : ℕ) (cs : List Consumer)
    → (validate_consumers m cs ≡ none) ↔ ((1 ≤ length cs) × (length cs ≤ m))
validate_consumers_iff m cs = ground arith

passes_iff :
    (b : Bool) (x y : Option Invalid) (k : Invalid)
    → ((if b then or_else x y else some k) ≡ none) ↔ ((b ≡ true) × (x ≡ none) × (y ≡ none))
passes_iff true none y k = ((λ h. (refl, refl, h)), (λ h. h.2))
passes_iff true (some e) y k = ((λ h. cc), (λ h. cc (h.1)))
passes_iff false x y k = ((λ h. cc), (λ h. cc (h.0)))

abbrev type_known : String → Bool
type_known t = t == "internal" || t == "external"

type_known_iff : (t : String) → (type_known t ≡ true) ↔ ((t ≡ "internal") ⊎ (t ≡ "external"))
type_known_iff t = ground (arith, string_Eq.same_iff t "internal", string_Eq.same_iff t "external")

-- A payload is accepted exactly when its type is internal or external, its queue type is one of the
-- three, it asks for 0 to 5 retries, and it has at least one consumer and at most `max_consumers`.
pub validate_iff : (m : ℕ) (e : Event) → (validate m e ≡ none) ↔ IsValidEvent m e
unfolding validate
validate_iff m e =
    let (to, from) =
      passes_iff (type_known e.type) (validate_opt e.option) (validate_consumers m e.consumers)
        event_type in
    let o = validate_opt_iff e.option in
    let c = validate_consumers_iff m e.consumers in
    let t = type_known_iff e.type in
    (
      (λ h.
          let (a, b, d) = to h in
          record {
            known_type = t.0 a;
            known_queue = (o.0 b).0;
            retries = (o.0 b).1;
            some_consumer = (c.0 d).0;
            few_consumers = (c.0 d).1;
          }),
      (λ v. from (
        t.1 v.known_type,
        o.1 (v.known_queue, v.retries),
        c.1 (v.some_consumer, v.few_consumers),
      )),
    )
