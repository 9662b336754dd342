-- ===== src/Reminders/Plan.antt =====
-- `plan_for_appointment` and `cancel_for_appointment`.
use mathlib.Core.List.{◌++◌}
use bots_infra_be.Common.{
  ℕ, ◌+◌, ◌-◌, ◌≤◌, ◌≡◌, ◌⊎◌, inl, inr, refl, Bool, true, false, ◌&&◌, ◌||◌, String, str_eq, eq_iff,
  Option, none, some, List, [], ◌∷◌, any_of, take, length, length-append, length-take, All, arith,
  leb, ◌==◌, if◌then◌else◌, Bool-cases,
}
use bots_infra_be.Reminders.{Status, Reminder, ReminderRule, ReminderCfg, Range}
use bots_infra_be.Reminders.Quiet.{shift_out_of_quiet}

abbrev pub Table : Type 0
Table = List Reminder

-- The unique constraint `uq_reminder_appt_rule`.
pub is_for : ℕ → String → Reminder → Bool
is_for appointment key r = (r.appointment == appointment) && str_eq r.rule_key key

-- `session.add(Reminder(…))`: refused where the constraint is violated.
pub insert : Reminder → Table → Option Table
unfolding is_for
insert r t = if any_of (is_for r.appointment r.rule_key) t then none else some (t ++ r ∷ [])

-- What a call of `plan_for_appointment` is given; `clip` is `key[:48]`, and `fresh` draws an id.
pub record Booking : Type 0 where
  pub tenant : ℕ
  pub appointment : ℕ
  pub starts_at : ℕ
  pub local_time : ℕ → ℕ
  pub clip : String → String
  pub fresh : String → ℕ

pub reminder_of : Booking → List Range → ReminderRule → Reminder
reminder_of b quiet rule = record {
  id = b.fresh rule.key;
  tenant = b.tenant;
  appointment = b.appointment;
  rule_key = b.clip rule.key;
  send_at = shift_out_of_quiet b.local_time (b.starts_at - rule.before) quiet;
  status = Status.planned;
  attempts = 0;
  sent_at = none;
  last_error = "";
}

-- One turn of the loop: the count and the table.
pub plan_rule : ℕ → Booking → List Range → ReminderRule → Table → ℕ × Table
unfolding insert reminder_of
plan_rule now b quiet rule t =
    if leb b.starts_at (now + rule.before)
    then (0, t)
    else elim (insert (reminder_of b quiet rule) t) [ none ↦ (0, t) | some t' ↦ (1, t') ]

pub plan_rules : ℕ → Booking → List Range → List ReminderRule → Table → ℕ × Table
unfolding plan_rule
plan_rules now b quiet [] t = (0, t)
plan_rules now b quiet (rule ∷ rules) t =
    let (n, t') = plan_rule now b quiet rule t in
    let (m, t'') = plan_rules now b quiet rules t' in (n + m, t'')

-- `plan_for_appointment`
pub plan_for_appointment : ℕ → Booking → ReminderCfg → Table → ℕ × Table
unfolding plan_rules
plan_for_appointment now b cfg t =
    if cfg.enabled
    then plan_rules now b cfg.quiet_hours (take cfg.max_per_appointment cfg.rules) t
    else (0, t)

-- `cancel_for_appointment`
abbrev pub cancelled_if : ℕ → Reminder → Reminder
cancelled_if appointment r =
    if r.appointment == appointment
    then elim r.status [ Status.planned ↦ record r { status = Status.cancelled } | _ ↦ r ]
    else r

pub cancel_for_appointment : ℕ → Table → Table
cancel_for_appointment appointment [] = []
cancel_for_appointment appointment (r ∷ t) =
    cancelled_if appointment r ∷ cancel_for_appointment appointment t

-- The constraint holds of the whole table.
abbrev pub IsUnique : Table → Type 0
IsUnique [] = Unit
IsUnique (r ∷ t) = (any_of (is_for r.appointment r.rule_key) t ≡ false) × IsUnique t

-- The reminder of a rule is planned already.
abbrev Planned : Booking → Table → ReminderRule → Type 0
Planned b t rule = any_of (is_for b.appointment (b.clip rule.key)) t ≡ true

any_of-append : (p : Reminder → Bool) (t u : Table) → any_of p (t ++ u) ≡ (any_of p t || any_of p u)
any_of-append p [] u = refl
any_of-append p (r ∷ t) u = ground (arith, any_of-append p t u)

is_for_self : (r : Reminder) → is_for r.appointment r.rule_key r ≡ true
unfolding is_for
is_for_self r = ground (arith, eq_iff r.rule_key r.rule_key)

is_for_sym :
    (r s : Reminder)
    → is_for r.appointment r.rule_key s ≡ false
    → is_for s.appointment s.rule_key r ≡ false
unfolding is_for
is_for_sym r s h = ground (arith, eq_iff r.rule_key s.rule_key, eq_iff s.rule_key r.rule_key)

IsUnique-append :
    (t : Table) (r : Reminder)
    → IsUnique t
    → any_of (is_for r.appointment r.rule_key) t ≡ false
    → IsUnique (t ++ r ∷ [])
IsUnique-append [] r u h = (refl, tt)
IsUnique-append (s ∷ t) r u h = (
  (rw (any_of-append (is_for s.appointment s.rule_key) t (r ∷ []))
      (ground (arith, u.0, is_for_sym r s))),
  IsUnique-append t r u.1 (ground arith),
)

-- What a turn of the loop does to the table: it keeps the constraint, loses no reminder, adds as many
-- rows as it counts, and leaves the reminder of its rule planned unless the time for it has passed.
record Turn (now : ℕ) (b : Booking) (rule : ReminderRule) (t : Table) (n : ℕ) (t' : Table)
    : Type 0 where
  unique : IsUnique t → IsUnique t'
  keeps : (a : ℕ) (key : String) → any_of (is_for a key) t ≡ true → any_of (is_for a key) t' ≡ true
  counts : length t' ≡ length t + n
  small : n ≤ 1
  plans : (leb b.starts_at (now + rule.before) ≡ true) ⊎ Planned b t' rule

Turn-skip :
    (now : ℕ) (b : Booking) (rule : ReminderRule) (t : Table)
    → (leb b.starts_at (now + rule.before) ≡ true) ⊎ Planned b t rule
    → Turn now b rule t 0 t
Turn-skip now b rule t p = record {
  unique = λ u. u;
  keeps = λ a key h. h;
  counts = omega arith;
  small = omega arith;
  plans = p;
}

Turn-add :
    (now : ℕ) (b : Booking) (quiet : List Range) (rule : ReminderRule) (t : Table)
    → any_of (is_for b.appointment (b.clip rule.key)) t ≡ false
    → Turn now b rule t 1 (t ++ reminder_of b quiet rule ∷ [])
unfolding reminder_of
Turn-add now b quiet rule t new =
    let r = reminder_of b quiet rule in
    record {
      unique = λ u. IsUnique-append t r u new;
      keeps = λ a key h. rw (any_of-append (is_for a key) t (r ∷ [])) (rw h);
      counts = length-append t (r ∷ []);
      small = omega arith;
      plans = inr (
          rw (any_of-append (is_for b.appointment (b.clip rule.key)) t (r ∷ []))
            (rw (new, is_for_self r)));
    }

plan_rule-Turn :
    (now : ℕ) (b : Booking) (quiet : List Range) (rule : ReminderRule) (t : Table)
    → let (n, t') = plan_rule now b quiet rule t in Turn now b rule t n t'
unfolding plan_rule reminder_of
plan_rule-Turn now b quiet rule t = elim (Bool-cases (leb b.starts_at (now + rule.before))) [
  | inl past ↦ rw past (Turn-skip now b rule t (inl past))
  | inr ahead ↦ elim (Bool-cases (any_of (is_for b.appointment (b.clip rule.key)) t)) [
    | inl held ↦ rw (ahead, held) (Turn-skip now b rule t (inr held))
    | inr new ↦ rw (ahead, new) (Turn-add now b quiet rule t new)
  ]
]

-- What the whole loop does.
record Turns (now : ℕ) (b : Booking) (rules : List ReminderRule) (t : Table) (n : ℕ) (t' : Table)
    : Type 0 where
  unique : IsUnique t → IsUnique t'
  keeps : (a : ℕ) (key : String) → any_of (is_for a key) t ≡ true → any_of (is_for a key) t' ≡ true
  counts : length t' ≡ length t + n
  small : n ≤ length rules
  plans : All (λ rule. (leb b.starts_at (now + rule.before) ≡ true) ⊎ Planned b t' rule) rules

keep-Planned :
    (now : ℕ) (b : Booking) (rule : ReminderRule) (t t' : Table)
    → ((a : ℕ) (key : String) → any_of (is_for a key) t ≡ true → any_of (is_for a key) t' ≡ true)
    → (leb b.starts_at (now + rule.before) ≡ true) ⊎ Planned b t rule
    → (leb b.starts_at (now + rule.before) ≡ true) ⊎ Planned b t' rule
keep-Planned now b rule t t' keeps (inl past) = inl past
keep-Planned now b rule t t' keeps (inr held) = inr (keeps b.appointment (b.clip rule.key) held)

plan_rules-Turns :
    (now : ℕ) (b : Booking) (quiet : List Range) (rules : List ReminderRule) (t : Table)
    → let (n, t') = plan_rules now b quiet rules t in Turns now b rules t n t'
unfolding plan_rules
plan_rules-Turns now b quiet [] t = record {
  unique = λ u. u;
  keeps = λ a key h. h;
  counts = omega arith;
  small = omega arith;
  plans = tt;
}
plan_rules-Turns now b quiet (rule ∷ rules) t =
    let (n, t') = plan_rule now b quiet rule t in
    let first = plan_rule-Turn now b quiet rule t in
    let rest = plan_rules-Turns now b quiet rules t' in
    record {
      unique = λ u. rest.unique (first.unique u);
      keeps = λ a key h. rest.keeps a key (first.keeps a key h);
      counts = omega (arith, first.counts, rest.counts);
      small = omega (arith, first.small, rest.small);
      plans = (keep-Planned now b rule t' _ rest.keeps first.plans, rest.plans);
    }

-- Planning keeps one reminder at most for an appointment and a rule, adds as many rows as it reports,
-- and no more than the configured maximum.
pub plan_for_appointment-IsUnique :
    (now : ℕ) (b : Booking) (cfg : ReminderCfg) (t : Table)
    → IsUnique t
    → let (n, t') = plan_for_appointment now b cfg t in
      IsUnique t' × (length t' ≡ length t + n) × (n ≤ cfg.max_per_appointment)
unfolding plan_for_appointment
plan_for_appointment-IsUnique now b cfg t u = elim (Bool-cases cfg.enabled) [
  | inr off ↦ rw off (u, omega arith, omega arith)
  | inl on ↦
      let rules = take cfg.max_per_appointment cfg.rules in
      let turns = plan_rules-Turns now b cfg.quiet_hours rules t in
      rw on (
        turns.unique u,
        turns.counts,
        omega (arith, turns.small, length-take cfg.max_per_appointment cfg.rules),
      )
]

replan_rules :
    (now later : ℕ) (b : Booking) (quiet : List Range) (rules : List ReminderRule) (t : Table)
    → now ≤ later
    → All (λ rule. (leb b.starts_at (now + rule.before) ≡ true) ⊎ Planned b t rule) rules
    → plan_rules later b quiet rules t ≡ (0, t)
unfolding plan_rules plan_rule reminder_of
replan_rules now later b quiet [] t le h = refl
replan_rules now later b quiet (rule ∷ rules) t le h =
    ground (arith, h.0, replan_rules now later b quiet rules t le h.1)

-- Planning again for the same booking, at the same time or later, plans nothing and changes nothing.
pub plan_for_appointment_idem :
    (now later : ℕ) (b : Booking) (cfg : ReminderCfg) (t : Table)
    → now ≤ later
    → let t' = (plan_for_appointment now b cfg t).1 in plan_for_appointment later b cfg t' ≡ (0, t')
unfolding plan_for_appointment
plan_for_appointment_idem now later b cfg t le = elim (Bool-cases cfg.enabled) [
  | inr off ↦ rw off
  | inl on ↦
      let rules = take cfg.max_per_appointment cfg.rules in
      rw on (
        replan_rules now later b cfg.quiet_hours rules _ le
          (plan_rules-Turns now b cfg.quiet_hours rules t).plans)
]
