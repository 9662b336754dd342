-- ===== src/Credentials/Examples.antt =====
-- Credentials at concrete inputs: a cipher that has one key and changes no text.
use bots_infra_be.Common.{◌≡◌, refl, false, str_eq, some, none, List, [], ◌∷◌, if◌then◌else◌}
use bots_infra_be.Common.First.{first}
use bots_infra_be.Common.Json.{Fields, Value}
use bots_infra_be.Scope.{select}
use bots_infra_be.Credentials.{
  Credential, Libraries, Fresh, Stored, decrypt, encrypt, row_for, load_credential,
  store_credential, delete_credential,
}
use bots_infra_be.Credentials.Kept.{IsStored, store_credential-IsStored}

abbrev secret : Fields
secret = Fields.entry "token" (Value.str "abc") Fields.blank

abbrev libs : Libraries
libs = record {
  is_key = λ k. str_eq k "key1";
  seal = λ k salt plain. plain;
  open_sealed = λ k c. if str_eq k "key1" then some c else none;
  dumps = λ f. "{token: abc}";
  loads = λ s. if str_eq s "{token: abc}" then some (Value.obj secret) else none;
}

abbrev table : List Credential
table =
    record { id = 1; tenant = 7; provider = "twilio"; ciphertext = "{token: abc}"; created_at = 10 }
    ∷ record { id = 2; tenant = 8; provider = "twilio"; ciphertext = "old"; created_at = 20 }
    ∷ []

abbrev fresh : Fresh
fresh = record { id = 3; now = 30; salt = 5 }

loaded : load_credential libs "key1" 7 "twilio" table ≡ some secret
unfolding load_credential row_for select first decrypt
loaded = refl

-- A key that was rotated, and a provider that is not stored.
rotated : load_credential libs "key2" 7 "twilio" table ≡ none
unfolding load_credential row_for select first decrypt
rotated = refl

unreadable : load_credential libs "key1" 8 "twilio" table ≡ none
unfolding load_credential row_for select first decrypt
unreadable = refl

refused : store_credential libs "key1" fresh 7 "slack" Fields.blank table ≡ Stored.value_error
unfolding store_credential
refused = refl

no_key : store_credential libs "" fresh 7 "slack" secret table ≡ Stored.no_cipher
unfolding store_credential encrypt
no_key = refl

absent : (delete_credential 7 "slack" table).0 ≡ false
unfolding delete_credential row_for select first
absent = refl

store_credential-IsStored_example :
    IsStored libs "key1" fresh 7 "slack" secret table
      (store_credential libs "key1" fresh 7 "slack" secret table)
store_credential-IsStored_example =
    store_credential-IsStored libs "key1" fresh 7 "slack" secret table
      (record { ids = ((refl, tt), (tt, tt)); keys = ((refl, tt), (tt, tt)) }) (refl, (refl, tt))
      ((λ k salt plain valid. rw valid refl), refl)
