-- ===== src/Config/Reading.antt =====
-- bridge/src/config.rs: the files that are read: the configuration itself, and a node's password.
use poa_bridge.Config.{Config, LoadConfig, config_from_load_struct, Node}
use poa_bridge.Database.{ReadOutcome, open_refused, read_failed, contents}
use poa_bridge.Error.{Result, ok, err, panic, message_error, io}
use poa_bridge.Prelude.{
  ap, ==_iff, Bool-cases, ℕ, Bool, String, List, [], ◌∷◌, ◌++◌, Option, some, none, if◌then◌else◌,
  ◌==◌, ◌≡◌, refl, ◌≢◌, inl, inr, All, arith,
}

-- `toml::from_str` is third-party code; a bad text is reported under the context that is put on it.
module _ (from_toml : List ℕ → Option LoadConfig) where
  unfoldable pub load_from_str : List ℕ → Bool → Result Config
  load_from_str s allow_insecure_rpc_endpoints = elim (from_toml s) [
    | some config ↦ config_from_load_struct config allow_insecure_rpc_endpoints
    | none ↦ err (message_error "Cannot parse config")
  ]

  -- `Config::load`. A file that opens and cannot be read is a panic.
  unfoldable pub load_config : ReadOutcome → Bool → Result Config
  unfolding load_from_str
  load_config (open_refused kind) allow_insecure_rpc_endpoints =
      err (message_error "Cannot open config")
  load_config (read_failed kind) allow_insecure_rpc_endpoints = panic
  load_config (contents text) allow_insecure_rpc_endpoints =
      load_from_str text allow_insecure_rpc_endpoints

-- `s.split("\n").next().unwrap()`.
unfoldable pub first_line : List ℕ → List ℕ
first_line [] = []
first_line (c ∷ s) = let rest = first_line s in if c == 10 then [] else c ∷ rest

unfoldable pub password_read : ReadOutcome → Result (List ℕ)
unfolding first_line
password_read (open_refused kind) = err (io kind)
password_read (read_failed kind) = err (io kind)
password_read (contents s) = ok (first_line s)

-- `Node::password`, with the outcome of reading the file that the node names.
unfoldable pub password : (String → ReadOutcome) → Node → Result (List ℕ)
unfolding password_read
password files node = password_read (files node.password)

-- What follows the first line: nothing, or a line feed.
abbrev pub EndsLine : List ℕ → Type 0
EndsLine [] = Unit
EndsLine (c ∷ s) = c ≡ 10

first_line-split :
    (s : List ℕ)
    → All (λ c. c ≢ 10) (first_line s)
      × (rest : List ℕ) × (s ≡ first_line s ++ rest)
      × EndsLine rest
unfolding first_line
first_line-split [] = (tt, [], refl, tt)
first_line-split (c ∷ s) =
    let (clean, rest, whole, ends) = first_line-split s in
    elim (Bool-cases (c == 10)) [
      | inl h ↦ rw h (tt, c ∷ s, refl, (==_iff c 10).0 h)
      | inr h ↦ rw h (((λ e. ground arith), clean), rest, ap (λ t. c ∷ t) whole, ends)
    ]

-- The password of a node is the text of its file before the first line feed, which is all of it where
-- there is none: it holds no line feed, and what is left of the file begins with one or is empty.
pub password-IsFirstLine :
    (files : String → ReadOutcome) (node : Node) (s : List ℕ)
    → files node.password ≡ contents s
    → (secret : List ℕ) × (password files node ≡ ok secret)
      × All (λ c. c ≢ 10) secret
      × (rest : List ℕ) × (s ≡ secret ++ rest)
      × EndsLine rest
unfolding password
password-IsFirstLine files node s read =
    let (clean, rest, whole, ends) = first_line-split s in
    (first_line s, rw read refl, clean, rest, whole, ends)
