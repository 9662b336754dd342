-- ===== src/Reminders/Once.antt =====
-- A reminder is mailed at most once, and only for an appointment that stands and lies ahead.
use mathlib.Core.List.{◌++◌}
use bots_infra_be.Common.{
  ℕ, ◌+◌, ◌<◌, ◌≡◌, refl, ◌∙◌, subst, Bool, true, false, Option, none, some, List, [], ◌∷◌, All,
  All-split, All-append, All-map, All-zip, arith, ◌==◌, ==_refl, if◌then◌else◌, eq_iff,
}
use bots_infra_be.Common.Rows.{
  update_where, update_where-update_where, Distinct, Distinct-others, Distinct-replace, Placed,
  oldest, oldest-Placed,
}
use bots_infra_be.Reminders.{Status, Reminder}
use bots_infra_be.Reminders.Plan.{Table}
use bots_infra_be.Reminders.Sweep.{
  Appointment, Fault, World, State, Outcome, Decision, is_due, start, decide_send, attempt, resolve,
  send_claimed, send_one, send_due,
}

-- No turn raises between the mail and the row's end.
abbrev pub IsPrompt : Fault → Type 0
IsPrompt (Fault.late e) = ⊥
IsPrompt _ = Unit

abbrev pub mail_count : ℕ → List ℕ → ℕ
mail_count i [] = 0
mail_count i (j ∷ mails) = (if i == j then 1 else 0) + mail_count i mails

abbrev pub expected : Status → ℕ
expected Status.sent = 1
expected _ = 0

-- A row that is `sent` has been mailed once, and any other row not at all.
abbrev pub IsMatched : List ℕ → Reminder → Type 0
IsMatched mails r = mail_count r.id mails ≡ expected r.status

-- The row that a turn leaves where it found `r`.
turned : World → Reminder → Reminder
turned w r = resolve w.now (start r) (attempt w (start r)).1 (start r)

resolve-id : (now : ℕ) (r x : Reminder) (o : Outcome) → (resolve now r o x).id ≡ x.id
unfolding resolve
resolve-id now r x (Outcome.ended s e) = refl
resolve-id now r x (Outcome.raised e) = ground arith

turned-id : (w : World) (r : Reminder) → (turned w r).id ≡ r.id
unfolding turned
turned-id w r = resolve-id w.now (start r) (start r) (attempt w (start r)).1

-- A row ends as `sent` exactly where its turn queued a mail.
turned-status :
    (w : World) (r : Reminder)
    → IsPrompt w.fault
    → expected (turned w r).status ≡ (if (attempt w (start r)).0 then 1 else 0)
unfolding turned resolve attempt
turned-status w r prompt = ground arith

send_claimed-table :
    (w : World) (r : Reminder) (s : State) (placed : Placed (λ x. x.id) s.table r)
    → (send_claimed w
        (start r)
        (record s { table = update_where (λ x. x.id) r.id start s.table })).table
      ≡ placed.before ++ turned w r ∷ placed.after
unfolding send_claimed turned
send_claimed-table w r s placed =
    update_where-update_where (λ x. x.id) r.id (resolve w.now (start r) (attempt w (start r)).1)
      start s.table (λ x. refl)
    ∙ placed.update (λ x. resolve w.now (start r) (attempt w (start r)).1 (start x))

-- What the reminders and the mails of a state owe each other.
abbrev pub IsOnce : State → Type 0
IsOnce s = Distinct (λ x. x.id) s.table × All (IsMatched s.mails) s.table

IsMatched-beside :
    (m : Bool) (i : ℕ) (mails : List ℕ) (t : Table)
    → All (λ x. (x.id == i) ≡ false) t
    → All (IsMatched mails) t
    → All (IsMatched (if m then i ∷ mails else mails)) t
IsMatched-beside m i mails t others h =
    All-map _ _ (λ x p. ground (arith, p.0, p.1)) t (All-zip _ _ t others h)

send_claimed-IsOnce :
    (w : World) (r : Reminder) (s : State) (placed : Placed (λ x. x.id) s.table r)
    → IsPrompt w.fault
    → is_due w.now r ≡ true
    → IsOnce s
    → IsOnce (
        send_claimed w (start r) (record s { table = update_where (λ x. x.id) r.id start s.table }))
unfolding send_claimed is_due
send_claimed-IsOnce w r s placed prompt due (distinct, matched) =
    rw (send_claimed-table w r s placed) (
      Distinct-replace (λ x. x.id) placed.before placed.after r (turned w r) (turned-id w r)
          distinct',
      All-append _ placed.before (turned w r ∷ placed.after)
          (IsMatched-beside m r.id s.mails placed.before before matched'.0)
          (
            ground
                (arith, turned-id w r, turned-status w r prompt, matched'.1.0, due, ==_refl r.id),
            IsMatched-beside m r.id s.mails placed.after after matched'.1.1,
          ),
    )
  where
    m : Bool
    m = (attempt w (start r)).0

    distinct' : Distinct (λ x. x.id) (placed.before ++ r ∷ placed.after)
    distinct' = subst (Distinct (λ x. x.id)) placed.split distinct

    matched' : All (IsMatched s.mails) placed.before × All (IsMatched s.mails) (r ∷ placed.after)
    matched' = All-split _ placed.before (r ∷ placed.after) (subst (All _) placed.split matched)

    before : All (λ x. (x.id == r.id) ≡ false) placed.before
    before = (Distinct-others (λ x. x.id) placed.before placed.after r distinct').0

    after : All (λ x. (x.id == r.id) ≡ false) placed.after
    after = (Distinct-others (λ x. x.id) placed.before placed.after r distinct').1

abbrev AndThen : Option State → Type 0
AndThen none = Unit
AndThen (some s) = IsOnce s

send_one-IsOnce : (w : World) (s : State) → IsPrompt w.fault → IsOnce s → AndThen (send_one w s)
unfolding send_one
send_one-IsOnce w s prompt once = go (oldest (is_due w.now) (λ x. x.send_at) s.table) refl
  where
    go :
        (o : Option Reminder)
        → oldest (is_due w.now) (λ x. x.send_at) s.table ≡ o
        → AndThen (elim o [
          | none ↦ none
          | some r ↦ some (
              send_claimed w
                (start r)
                (record s { table = update_where (λ x. x.id) r.id start s.table }))
        ])
    go none e = tt
    go (some r) e =
        let (placed, due) =
          oldest-Placed (λ x. x.id) (is_due w.now) (λ x. x.send_at) s.table r once.0 e in
        send_claimed-IsOnce w r s placed prompt due once

-- Where every reminder that is `sent` has been mailed once and every other reminder never, this still
-- holds after a sweep over rows of distinct ids, if no turn of it raises after its mail is queued: no
-- reminder is mailed twice, and none is marked as sent without a mail.
pub send_due-IsOnce :
    (worlds : List World) (s : State)
    → All (λ w. IsPrompt w.fault) worlds
    → IsOnce s
    → IsOnce (send_due worlds s)
unfolding send_due
send_due-IsOnce [] s prompt once = once
send_due-IsOnce (w ∷ worlds) s prompt once =
    go (λ s' h. send_due-IsOnce worlds s' prompt.1 h) (send_one w s)
      (send_one-IsOnce w s prompt.0 once)
  where
    go :
        ((s' : State) → IsOnce s' → IsOnce (send_due worlds s'))
        → (o : Option State) → AndThen o
        → IsOnce (elim o [ none ↦ s | some s' ↦ send_due worlds s' ])
    go rest none h = once
    go rest (some s') h = rest s' h

-- The appointment that a mail reminds of, as the turn reads it.
abbrev pub Upcoming : World → Option Appointment → Type 0
Upcoming w none = ⊥
Upcoming w (some a) = (a.status ≡ "booked") × (w.now < a.starts_at)

decide_send-Upcoming :
    (w : World) (o : Option Appointment) → decide_send w o ≡ Decision.mail → Upcoming w o
unfolding decide_send
decide_send-Upcoming w none h = ground arith
decide_send-Upcoming w (some a) h = ground (arith, eq_iff a.status "booked")

-- A turn queues a mail only for an appointment that is booked when it is read and starts after that.

attempt-Upcoming :
    (w : World) (r : Reminder) → (attempt w r).0 ≡ true → Upcoming w (w.appointment r.appointment)
unfolding attempt
attempt-Upcoming w r h = decide_send-Upcoming w (w.appointment r.appointment) (ground arith)
