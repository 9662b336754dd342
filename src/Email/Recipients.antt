-- ===== src/Email/Recipients.antt =====
-- What `clean_recipients` keeps.
use mathlib.Core.List.{◌++◌, append-nil, append_assoc}
use bots_infra_be.Common.{
  ◌+◌, ◌≤◌, ◌<◌, ◌≡◌, refl, sym, ◌∙◌, Bool, true, false, String, str_eq, List, [], ◌∷◌, length,
  length-append, arith, leb, leb→le, if◌then◌else◌, Bool-cases, inl, inr,
}
use bots_infra_be.Email.{Texts, valid_email, is_new, collect, clean_recipients, max_recipients}

nil_of_length : (xs : List String) → length xs ≡ 0 → xs ≡ []
nil_of_length [] h = refl
nil_of_length (x ∷ xs) h = absurd (omega arith)

-- The `break` is reached only where nothing is left to add.
full_or_more :
    (a : String) (out rest result : List String)
    → length out + length (a ∷ rest) ≤ max_recipients
    → (length (out ++ a ∷ []) < max_recipients → result ≡ (out ++ a ∷ []) ++ rest)
    → (if leb max_recipients (length (out ++ a ∷ [])) then out ++ a ∷ [] else result)
      ≡ out ++ a ∷ rest
full_or_more a out rest result k more =
    let n = length-append out (a ∷ []) in
    elim (Bool-cases (leb max_recipients (length (out ++ a ∷ [])))) [
      | inl full ↦ rw full (
          rw (
            nil_of_length rest
              (omega (arith, n, leb→le max_recipients (length (out ++ a ∷ [])) full))))
      | inr room ↦ rw room (more (ground (arith, room)) ∙ append_assoc out (a ∷ []) rest)
    ]

module _ (t : Texts) where
  -- Each address passes `valid_email` unchanged and differs, whatever its case, from those before it
  -- and from those in `seen`.
  abbrev pub IsClean : List String → List String → Type 0
  IsClean seen [] = Unit
  IsClean seen (a ∷ rest) =
      (valid_email t a ≡ a) × (is_new t a seen ≡ true) × IsClean (t.lower a ∷ seen) rest

  -- What a loop adds to `out`.
  pub record Adds (seen out result : List String) : Type 0 where
    pub added : List String
    pub split : result ≡ out ++ added
    pub clean : IsClean seen added

  Adds-nothing : (seen out : List String) → Adds seen out out
  Adds-nothing seen out = record { added = []; split = sym (append-nil out); clean = tt }

  Adds-if :
      (b : Bool) (seen out result : List String)
      → Adds seen out result
      → Adds seen out (if b then out else result)
  Adds-if true seen out result h = Adds-nothing seen out
  Adds-if false seen out result h = h

  Adds-cons :
      (a : String) (seen out result : List String)
      → valid_email t a ≡ a
      → is_new t a seen ≡ true
      → Adds (t.lower a ∷ seen) (out ++ a ∷ []) result
      → Adds seen out result
  Adds-cons a seen out result fixed new more = record {
    added = a ∷ more.added;
    split = more.split ∙ append_assoc out (a ∷ []) more.added;
    clean = (fixed, new, more.clean);
  }

  length-collect :
      (raw seen out : List String)
      → length out < max_recipients
      → length (collect t raw seen out) ≤ max_recipients
  unfolding collect
  length-collect [] seen out h = omega arith
  length-collect (item ∷ raw) seen out h =
      let address = valid_email t item in
      let fresh = is_new t address seen in
      let seen' = if fresh then t.lower address ∷ seen else seen in
      let out' = if fresh then out ++ address ∷ [] else out in
      elim (Bool-cases (leb max_recipients (length out'))) [
        | inl full ↦ rw full (grown fresh address (length-append out (address ∷ [])))
        | inr room ↦ rw room (length-collect raw seen' out' (ground arith))
      ]
    where
      grown :
          (b : Bool) (a : String)
          → length (out ++ a ∷ []) ≡ length out + 1
          → length (if b then out ++ a ∷ [] else out) ≤ max_recipients
      grown true a e = omega (arith, e)
      grown false a e = omega arith

module _ (t : Texts) (strip_idem : (s : String) → t.strip (t.strip s) ≡ t.strip s) where
  valid_email_idem :
      (s : String)
      → str_eq (valid_email t s) "" ≡ false
      → valid_email t (valid_email t s) ≡ valid_email t s
  unfolding valid_email
  valid_email_idem s h = elim (Bool-cases (t.matches_email (t.strip s))) [
    | inl ok ↦ rw ok (rw (strip_idem s) (rw ok))
    | inr bad ↦ let e = rw bad at h in cc e
  ]

  is_new_ne : (a : String) (seen : List String) → is_new t a seen ≡ true → str_eq a "" ≡ false
  is_new_ne a seen h = ground (arith, h)

  collect-Adds : (raw seen out : List String) → Adds t seen out (collect t raw seen out)
  unfolding collect
  collect-Adds [] seen out = Adds-nothing t seen out
  collect-Adds (item ∷ raw) seen out = elim (Bool-cases (is_new t (valid_email t item) seen)) [
    | inl new ↦
        let a = valid_email t item in
        rw new (
          Adds-cons t a seen out _ (valid_email_idem item (is_new_ne a seen new)) new
            (Adds-if t _ _ (out ++ a ∷ []) _ (collect-Adds raw (t.lower a ∷ seen) (out ++ a ∷ []))))
    | inr old ↦ rw old (Adds-if t _ seen out _ (collect-Adds raw seen out))
  ]

  -- A list that is clean already is added whole.
  collect-clean :
      (added seen out : List String)
      → IsClean t seen added
      → length out < max_recipients
      → length out + length added ≤ max_recipients
      → collect t added seen out ≡ out ++ added
  unfolding collect
  collect-clean [] seen out c h k = sym (append-nil out)
  collect-clean (a ∷ rest) seen out c h k = rw (c.0) (
      rw (c.1) (
        full_or_more a out rest _ k (λ room.
          collect-clean rest (t.lower a ∷ seen) (out ++ a ∷ []) c.2 room
            (omega (arith, length-append out (a ∷ []))))))

  -- At most ten recipients are kept, each of them valid as it stands, and no two are the same address
  -- in another case.
  clean_recipients-IsClean :
      (raw : List String)
      → IsClean t [] (clean_recipients t raw) × (length (clean_recipients t raw) ≤ max_recipients)
  unfolding clean_recipients
  clean_recipients-IsClean raw =
      let adds = collect-Adds raw [] [] in
      (rw adds.split adds.clean, length-collect t raw [] [] (omega arith))

  -- Cleaning a cleaned list changes nothing: delivery keeps every recipient that was queued.
  clean_recipients_idem :
      (raw : List String) → clean_recipients t (clean_recipients t raw) ≡ clean_recipients t raw
  unfolding clean_recipients
  clean_recipients_idem raw =
      let (clean, fits) = clean_recipients-IsClean raw in
      collect-clean (clean_recipients t raw) [] [] clean (omega arith) (omega (arith, fits))

  -- If stripping is idempotent, at most ten recipients are kept, each of them valid as it stands, and no
  -- two are the same address in another case; and cleaning a cleaned list changes nothing, so that
  -- delivery keeps every recipient that was queued.
  pub clean_recipients-IsStable :
      (raw : List String)
      → IsClean t [] (clean_recipients t raw)
        × (length (clean_recipients t raw) ≤ max_recipients)
        × (clean_recipients t (clean_recipients t raw) ≡ clean_recipients t raw)
  clean_recipients-IsStable raw =
      let (clean, fits) = clean_recipients-IsClean raw in (clean, fits, clean_recipients_idem raw)
