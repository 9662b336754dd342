-- ===== src/Email.antt =====
-- Recipients and the queueing of mail: app/services/email.py.
--
-- The regular expression `_EMAIL` and the text methods of Python's `str` are the record `Texts`.
-- An item of a recipient list is a text already.
pub mod Recipients
mod Examples
use mathlib.Core.List.{◌++◌}
use bots_infra_be.Common.{
  ℕ, Bool, true, false, not, ◌&&◌, String, str_eq, List, [], ◌∷◌, length, leb, if◌then◌else◌,
}
use bots_infra_be.Common.Dict.{elem}

pub record Texts : Type 0 where
  pub strip : String → String
  pub lower : String → String
  pub matches_email : String → Bool

abbrev pub max_recipients : ℕ
max_recipients = 10

module _ (t : Texts) where
  unfoldable pub valid_email : String → String
  valid_email raw = let value = t.strip raw in if t.matches_email value then value else ""

  -- The test of the loop of `clean_recipients`: `address and address.lower() not in seen`.
  abbrev pub is_new : String → List String → Bool
  is_new address seen = not (str_eq address "") && not (elem (t.lower address) seen)

  -- The loop, with its `break`.
  pub collect : List String → List String → List String → List String
  collect [] seen out = out
  collect (item ∷ raw) seen out =
      let address = valid_email item in
      let seen' = if is_new address seen then t.lower address ∷ seen else seen in
      let out' = if is_new address seen then out ++ address ∷ [] else out in
      let rest = collect raw seen' out' in if leb max_recipients (length out') then out' else rest

  unfoldable pub clean_recipients : List String → List String
  unfolding collect
  clean_recipients raw = collect raw [] []
