-- ===== src/Logs/Levels.antt =====
-- The level of a logger and the configured one.
use gqueue.Common.{
  ℕ, zero, suc, ◌≤◌, Bool, true, false, ◌||◌, none, List, [], ◌∷◌, ℤ, pos, negsuc, geb, not,
  if◌then◌else◌, is_negative, Try, ok, error, ◌≡◌, refl, sym, ◌∙◌, ap, inl, inr, ◌↔◌, Option-cases,
  Bool-cases, arith,
}
use gqueue.Logs.{
  Config, is_valid, get, after_valid, Level, get_level, LogConfig, LogOption, apply_option,
  apply_options, Logger, logger_of, new_config, after_config, new,
}

-- The number of a level among the constants of slog.go
abbrev pub level_number : Level → ℕ
level_number Level.debug = 0
level_number Level.info = 1
level_number Level.warn = 2
level_number Level.error_level = 3

abbrev pub NoLevel : List LogOption → Type 0
NoLevel [] = Unit
NoLevel (LogOption.with_level l ∷ opts) = ⊥
NoLevel (opt ∷ opts) = NoLevel opts

apply_options-NoLevel :
    (opts : List LogOption) (c : LogConfig) → NoLevel opts → (apply_options opts c).level ≡ c.level
unfolding apply_options apply_option
apply_options-NoLevel [] c h = refl
apply_options-NoLevel (LogOption.with_level l ∷ opts) c h = elim h [ ]
apply_options-NoLevel (LogOption.with_output w ∷ opts) c h =
    apply_options-NoLevel opts (record c { output = w }) h
apply_options-NoLevel (LogOption.with_source ∷ opts) c h =
    apply_options-NoLevel opts (record c { add_source = true }) h
apply_options-NoLevel (LogOption.with_json_format b ∷ opts) c h =
    apply_options-NoLevel opts (record c { json_format = b }) h
apply_options-NoLevel (LogOption.with_time_format f ∷ opts) c h =
    apply_options-NoLevel opts (record c { time_format = f }) h

-- The settings that the service runs with: a known queue and a level from 0 to 3
abbrev pub Accepted : Config → Type 0
Accepted conf = (is_valid conf.wq ≡ none) × ((n : ℕ) × (conf.log_level ≡ pos n) × (n ≤ 3))

abbrev pub Levelled : Config → Try Logger → Type 0
Levelled conf r = (l : Logger) × (r ≡ ok l) × (pos (level_number l.min_level) ≡ conf.log_level)

get_level-number : (n : ℕ) → n ≤ 3 → level_number (get_level (pos n)) ≡ n
unfolding get_level
get_level-number zero h = refl
get_level-number (suc zero) h = refl
get_level-number (suc (suc zero)) h = refl
get_level-number (suc (suc (suc zero))) h = refl
get_level-number (suc (suc (suc (suc n)))) h = absurd (omega (arith, h))

abbrev outside : ℤ → Bool
outside level = is_negative level || not (geb (pos 3) level)

inside_level : (level : ℤ) → outside level ≡ false → (n : ℕ) × (level ≡ pos n) × (n ≤ 3)
inside_level (pos n) h = (n, refl, ground (arith, h))
inside_level (negsuc n) h = absurd (ground (arith, h))

level_inside : (n : ℕ) → n ≤ 3 → outside (pos n) ≡ false
level_inside n h = ground (arith, h)

get-Accepted : (conf : Config) → Accepted conf → get (ok conf) ≡ ok conf
unfolding get
get-Accepted conf (v, (n, e, h)) =
    ap (after_valid conf) v
    ∙ ap (λ b. if b then error "invalid log level" else ok conf) (ap outside e ∙ level_inside n h)

accepted_inside :
    (conf c : Config) → after_valid conf none ≡ ok c → (n : ℕ) × (conf.log_level ≡ pos n) × (n ≤ 3)
accepted_inside conf c h = elim (Bool-cases (outside conf.log_level)) [
  | inl b ↦ absurd (ground (arith, h, b))
  | inr b ↦ inside_level conf.log_level b
]

get-refused : (conf c : Config) → get (ok conf) ≡ ok c → Accepted conf
unfolding get
get-refused conf c h = elim (Option-cases (is_valid conf.wq)) [
  | inl v ↦ (v, accepted_inside conf c (sym (ap (after_valid conf) v) ∙ h))
  | inr (err, v) ↦ absurd (ground (arith, h, v))
]

after_config-ok :
    (opts : List LogOption) (r : Try Config) (l : Logger)
    → after_config opts r ≡ ok l
    → (c : Config) × (r ≡ ok c)
after_config-ok opts (ok c) l h = (c, refl)
after_config-ok opts (error err) l h = absurd (ground (arith, h))

-- A logger that is made without an option for its level is made, rather than that the configuration
-- panics, and has the level of the configured number, exactly where the configuration names a known
-- queue and a level from 0 to 3.
pub new-Levelled_iff :
    (conf : Config) (opts : List LogOption)
    → NoLevel opts
    → Levelled conf (new (ok conf) opts) ↔ Accepted conf
unfolding new
new-Levelled_iff conf opts plain = (
  (λ (l, e, k). let (c, got) = after_config-ok opts (get (ok conf)) l e in get-refused conf c got),
  (λ (v, (n, e, h)). (
    logger_of (apply_options opts (new_config conf)),
    ap (after_config opts) (get-Accepted conf (v, (n, e, h))),
    ap (λ level. pos (level_number (get_level level)))
          (apply_options-NoLevel opts (new_config conf) plain ∙ e)
        ∙ ap pos (get_level-number n h)
        ∙ sym e,
  )),
)
