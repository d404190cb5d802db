-- ===== src/Cli/Requests.antt =====
-- What the command line of cli/src/main.rs can ask for, and how the process ends.
use wirefinder.Prelude.{
  Bool, true, false, Option, none, some, List, [], ◌∷◌, ◌≡◌, refl, if◌then◌else◌,
}
use wirefinder.Text.{Text, lit, equal}
use wirefinder.Result.{Result, err}
use wirefinder.Proto.{Request, Response}
use wirefinder.Cli.{add_spec, parse_request, request_of, run, main}

-- The request carries no secret.
abbrev pub Bare : Request → Type 0
Bare (Request.add_server spec) = (spec.private_key ≡ none) × (spec.preshared_key ≡ none)
Bare (Request.edit_server spec) = ⊥
Bare (Request.import_server name conf) = ⊥
Bare _ = Unit

abbrev pub MaybeBare : Option Request → Type 0
MaybeBare none = Unit
MaybeBare (some req) = Bare req

record IsBare (o : Option Request) : Type 0 where
  holds : MaybeBare o

if_bare : (b : Bool) {o p : Option Request} → IsBare o → IsBare p → IsBare (if b then o else p)
if_bare true h k = h
if_bare false h k = k

abbrev harmless : {o : Option Request} → MaybeBare o → IsBare o
harmless h = record { holds = h }

parse_request-IsBare : (args : List Text) → IsBare (parse_request args)
unfolding parse_request add_spec
parse_request-IsBare [] = harmless tt
parse_request-IsBare (cmd ∷ []) = if_bare (equal cmd (lit "info")) (harmless tt) (
    if_bare (equal cmd (lit "servers")) (harmless tt)
      (if_bare (equal cmd (lit "disconnect")) (harmless tt) (harmless tt)))
parse_request-IsBare (cmd ∷ arg ∷ []) = if_bare (equal cmd (lit "servers")) (harmless tt) (
    if_bare (equal cmd (lit "switch")) (harmless tt) (
      if_bare (equal cmd (lit "remove")) (harmless tt)
        (if_bare (equal cmd (lit "get")) (harmless tt) (harmless tt))))
parse_request-IsBare (cmd ∷ a ∷ b ∷ []) = harmless tt
parse_request-IsBare (cmd ∷ a ∷ b ∷ c ∷ []) = harmless tt
parse_request-IsBare (cmd ∷ name ∷ public_key ∷ endpoint ∷ address ∷ rest) =
    if_bare (equal cmd (lit "add")) (harmless (refl, refl)) (harmless tt)

-- Whatever the arguments, the request that they are parsed as carries no private key and no
-- preshared key, and is neither an edit nor an import.
pub parse_request_bare : (args : List Text) → MaybeBare (parse_request args)
parse_request_bare args = (parse_request-IsBare args).holds

module _ (debug : Text → Text) (read : Text → Result Text) (stem : Text → Option Text)
    (ask : Request → Result Response) (args : List Text) where
  run_usage :
      (e : Text) (other : Request → Result Response)
      → ((run debug ask (err e)).code ≡ 2) × (run debug other (err e) ≡ run debug ask (err e))
  run_usage [] other = (refl, refl)
  run_usage (c ∷ e) other = (refl, refl)

  -- A run whose arguments make no request ends with the code 2, whatever the daemon is.
  pub main_usage :
      {e : Text}
      → request_of read stem args ≡ err e
      → (other : Request → Result Response)
      → ((main debug read stem ask args).code ≡ 2)
        × (main debug read stem other args ≡ main debug read stem ask args)
  unfolding main
  main_usage {e} h other = rw h (run_usage e other)
