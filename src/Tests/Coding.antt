-- ===== src/Tests/Coding.antt =====
-- A code of configurations that is read back as it was written, for the examples: each value is
-- followed by nothing that belongs to it.
use wirefinder.Prelude.{
  ℕ, zero, suc, and_then, Option, none, some, List, [], ◌∷◌, ◌++◌, ◌≡◌, refl, sym, ap, ◌∙◌,
}
use wirefinder.Prelude.Lists.{length}
use wirefinder.Text.{Text, lit}
use wirefinder.Result.{Result, ok, err}
use wirefinder.Config.{ServerConfig, Config}
use wirefinder.Config.Store.{Codec}

append_assoc : (a b c : Text) → (a ++ b) ++ c ≡ a ++ (b ++ c)
append_assoc [] b c = refl
append_assoc (x ∷ a) b c = ap (λ t. x ∷ t) (append_assoc a b c)

record Code (A : Type 0) : Type 0 where
  enc : A → Text
  dec : Text → Option (A × Text)
  law : (a : A) (rest : Text) → dec (enc a ++ rest) ≡ some (a, rest)

number_dec : Text → Option (ℕ × Text)
number_dec [] = none
number_dec (n ∷ rest) = some (n, rest)

abbrev number : Code ℕ
unfolding number_dec
number = record { enc = λ n. n ∷ []; dec = number_dec; law = λ a rest. refl }

module _ {A B : Type 0} (a : Code A) (b : Code B) where
  with_first : A → Option (B × Text) → Option ((A × B) × Text)
  with_first v none = none
  with_first v (some (w, rest)) = some ((v, w), rest)

  then_dec : Option (A × Text) → Option ((A × B) × Text)
  then_dec none = none
  then_dec (some (v, rest)) = with_first v (b.dec rest)

  pair_law :
      (v : A) (w : B) (rest : Text)
      → then_dec (a.dec ((a.enc v ++ b.enc w) ++ rest)) ≡ some ((v, w), rest)
  unfolding then_dec with_first
  pair_law v w rest =
      rw (append_assoc (a.enc v) (b.enc w) rest, a.law v (b.enc w ++ rest), b.law w rest) refl

  abbrev pair : Code (A × B)
  pair = record {
    enc = λ p. a.enc p.0 ++ b.enc p.1;
    dec = λ t. then_dec (a.dec t);
    law = λ p rest. pair_law p.0 p.1 rest;
  }

module _ {A : Type 0} (a : Code A) where
  cons_dec : A → Option (List A × Text) → Option (List A × Text)
  cons_dec v none = none
  cons_dec v (some (vs, rest)) = some (v ∷ vs, rest)

  many_dec : ℕ → Text → Option (List A × Text)
  many_dec zero t = some ([], t)
  many_dec (suc n) t = and_then (a.dec t) (λ p. cons_dec p.0 (many_dec n p.1))

  list_dec : Text → Option (List A × Text)
  list_dec [] = none
  list_dec (n ∷ rest) = many_dec n rest

  concat_enc : List A → Text
  concat_enc [] = []
  concat_enc (v ∷ vs) = a.enc v ++ concat_enc vs

  many_law :
      (vs : List A) (rest : Text) → many_dec (length vs) (concat_enc vs ++ rest) ≡ some (vs, rest)
  unfolding many_dec cons_dec concat_enc
  many_law [] rest = refl
  many_law (v ∷ vs) rest =
      rw
        (
          append_assoc (a.enc v) (concat_enc vs) rest,
          a.law v (concat_enc vs ++ rest),
          many_law vs rest,
        )
        refl

  list_law :
      (vs : List A) (rest : Text) → list_dec ((length vs ∷ concat_enc vs) ++ rest) ≡ some (vs, rest)
  unfolding list_dec
  list_law vs rest = many_law vs rest

  abbrev list : Code (List A)
  list = record { enc = λ vs. length vs ∷ concat_enc vs; dec = list_dec; law = list_law }

module _ {A B : Type 0} (a : Code A) (to : A → B) (from : B → A)
    (back : (b : B) → to (from b) ≡ b) where
  to_dec : Option (A × Text) → Option (B × Text)
  to_dec none = none
  to_dec (some (v, rest)) = some (to v, rest)

  via_law : (b : B) (rest : Text) → to_dec (a.dec (a.enc (from b) ++ rest)) ≡ some (b, rest)
  unfolding to_dec
  via_law b rest = rw (a.law (from b) rest, back b) refl

  abbrev via : Code B
  via = record { enc = λ b. a.enc (from b); dec = λ t. to_dec (a.dec t); law = via_law }

-- An option as a list of one element at most.
module _ {A : Type 0} where
  first : List A → Option A
  first [] = none
  first (v ∷ vs) = some v

  as_list : Option A → List A
  as_list none = []
  as_list (some v) = v ∷ []

  first-as_list : (o : Option A) → first (as_list o) ≡ o
  unfolding first as_list
  first-as_list none = refl
  first-as_list (some v) = refl

abbrev option : {A : Type 0} → Code A → Code (Option A)
option a = via (list a) first as_list first-as_list

abbrev text : Code Text
text = list number

abbrev Fields : Type 0
Fields =
    ((Text × Text) × (Text × Text))
    × (((Option Text × List Text) × (List Text × ℕ))
        × ((Option ℕ × Option ℕ) × (Option Text × List Text)))

abbrev fields : Code Fields
fields = pair (pair (pair text text) (pair text text)) (
    pair (pair (pair (option text) (list text)) (pair (list text) number))
      (pair (pair (option number) (option number)) (pair (option text) (list text))))

server_from : Fields → ServerConfig
server_from f = record {
  name = f.0.0.0;
  private_key = f.0.0.1;
  public_key = f.0.1.0;
  endpoint = f.0.1.1;
  resolved_endpoint = f.1.0.0.0;
  addresses = f.1.0.0.1;
  allowed_ips = f.1.0.1.0;
  listen_port = f.1.0.1.1;
  mtu = f.1.1.0.0;
  keepalive = f.1.1.0.1;
  preshared_key = f.1.1.1.0;
  dns = f.1.1.1.1;
}

fields_of : ServerConfig → Fields
fields_of s = (
  ((s.name, s.private_key), (s.public_key, s.endpoint)),
  (
    ((s.resolved_endpoint, s.addresses), (s.allowed_ips, s.listen_port)),
    ((s.mtu, s.keepalive), (s.preshared_key, s.dns)),
  ),
)

server_from-fields_of : (s : ServerConfig) → server_from (fields_of s) ≡ s
unfolding server_from fields_of
server_from-fields_of s = refl

abbrev servers : Code (List ServerConfig)
servers = list (via fields server_from fields_of server_from-fields_of)

decoded : Option (List ServerConfig × Text) → Result Config
decoded (some (ss, [])) = ok (record { servers = ss })
decoded _ = err (lit "bad state")

pub true_codec : Codec
true_codec = record {
  encode = λ c. ok (servers.enc c.servers);
  decode = λ t. decoded (servers.dec t);
}

append_nil : (t : Text) → t ++ [] ≡ t
append_nil [] = refl
append_nil (x ∷ t) = ap (λ u. x ∷ u) (append_nil t)

pub true_codec-reads :
    (c : Config) (t : Text) → true_codec.encode c ≡ ok t → true_codec.decode t ≡ ok c
unfolding true_codec decoded
true_codec-reads c t e =
    let same : servers.enc c.servers ≡ t = cc e in
    let read : servers.dec t ≡ some (c.servers, []) =
      ap servers.dec (sym same ∙ sym (append_nil (servers.enc c.servers)))
      ∙ servers.law c.servers [] in
    rw read refl
