-- ===== src/Email/Examples.antt =====
-- Recipient lists, and the theorems at concrete inputs.
use bots_infra_be.Common.{
  ◌≤◌, ◌≡◌, refl, Bool, true, false, not, String, str_eq, List, [], ◌∷◌, length, if◌then◌else◌,
}
use bots_infra_be.Email.{Texts, valid_email, clean_recipients, max_recipients}
use bots_infra_be.Email.Recipients.{IsClean, clean_recipients-IsStable}

-- `strip` drops the blanks of one address, `lower` maps one capital spelling.
abbrev texts : Texts
texts = record {
  strip = λ s. if str_eq s " a@x.io " then "a@x.io" else s;
  lower = λ s. if str_eq s "A@x.io" then "a@x.io" else s;
  matches_email = λ s. not (str_eq s "junk");
}

strip_idem : (s : String) → texts.strip (texts.strip s) ≡ texts.strip s
strip_idem s = go (str_eq s " a@x.io ") refl
  where
    go :
        (b : Bool)
        → str_eq s " a@x.io " ≡ b
        → texts.strip (if b then "a@x.io" else s) ≡ (if b then "a@x.io" else s)
    go true e = refl
    go false e = rw e

abbrev raw : List String
raw = " a@x.io " ∷ "junk" ∷ "A@x.io" ∷ "b@y.io" ∷ []

clean_raw : clean_recipients texts raw ≡ "a@x.io" ∷ "b@y.io" ∷ []
unfolding clean_recipients valid_email
clean_raw = refl

clean_recipients-IsStable_example :
    IsClean texts [] (clean_recipients texts raw)
    × (length (clean_recipients texts raw) ≤ max_recipients)
    × (clean_recipients texts (clean_recipients texts raw) ≡ clean_recipients texts raw)
clean_recipients-IsStable_example = clean_recipients-IsStable texts strip_idem raw
