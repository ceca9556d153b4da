-- ===== src/Error.antt =====
-- bridge/src/error.rs: the error kinds that the modelled code builds, matches or passes on.
use poa_bridge.Prelude.{map, All, ◌≡◌, refl, sym, ap, arith, List, [], ◌∷◌, ◌++◌, ℕ, String}
use poa_bridge.Prelude.Int.{ℤ}

-- `jsonrpc_core::ErrorCode`.
pub data ErrorCode : Type 0 where
  parse_error invalid_request method_not_found invalid_params internal_error : ErrorCode
  server_error : ℤ → ErrorCode

-- `jsonrpc_core::Error`, without its additional payload.
pub record RpcError : Type 0 where
  pub error_code : ErrorCode
  pub message : String

-- `io::ErrorKind`, with the kinds that are not inspected under one constructor.
pub data IoErrorKind : Type 0 where
  not_found broken_pipe : IoErrorKind
  other_kind : ℕ → IoErrorKind

-- `web3::ErrorKind`.
pub data Web3Error : Type 0 where
  rpc : RpcError → Web3Error
  web3_io : IoErrorKind → Web3Error
  web3_other : String → Web3Error

-- The kinds of the bridge's `Error`. Of the foreign links, `io` keeps the kind that is inspected,
-- and `foreign_link` stands for the rest.
pub data Error : Type 0 where
  io : IoErrorKind → Error
  foreign_link : String → Error
  message_error : String → Error
  shutdown_requested insufficient_funds no_required_signatures_changed : Error
  timeout : String → Error
  missing_file : String → Error
  web3 : Web3Error → Error
  key_store : String → Error
  sign_error : String → Error
  account_error : String → Error
  contextualized_error : Error → String → Error
  other_error : String → Error
  config_error : String → Error

-- `Result<T, Error>`, with a panic of the thread as a third outcome.
pub data Result {ℓ} (T : Type ℓ) : Type ℓ where
  panic : Result T
  err : Error → Result T
  ok : T → Result T

module _ {ℓ κ} {S : Type ℓ} {T : Type κ} where
  infixl 5 ◌>>=◌
  -- The question mark: the first outcome that is no value is that of the whole.
  abbrev pub ◌>>=◌ : Result S → (S → Result T) → Result T
  panic >>= rest = panic
  err e >>= rest = err e
  ok value >>= rest = rest value

  -- What a successful chain has done.
  pub >>=-eq-ok :
      (step : Result S) (rest : S → Result T) {last : T}
      → (step >>= rest) ≡ ok last
      → (value : S) × (step ≡ ok value) × (rest value ≡ ok last)
  >>=-eq-ok panic rest whole = cc
  >>=-eq-ok (err e) rest whole = cc
  >>=-eq-ok (ok value) rest whole = (value, refl, whole)

-- `From<TimeoutError<T>> for Error`: both cases lose their call and become one timeout.
pub data TimeoutError : Type 0 where
  timer_failed timed_out : TimeoutError

unfoldable pub from_timeout_error : TimeoutError → Error
from_timeout_error timer_failed = timeout "communication timeout"
from_timeout_error timed_out = timeout "communication timeout"

-- `iter().map(f).collect::<Result<Vec<_>>>()`: in order, up to the first failure.
unfoldable pub traverse {ℓ κ} :
    {A : Type ℓ} {B : Type κ} → (A → Result B) → List A → Result (List B)
traverse f [] = ok []
traverse f (x ∷ xs) = do y ← f x; ys ← traverse f xs; ok (y ∷ ys)

cons-eq-ok {κ} :
    {B : Type κ} (r : Result B) (rs : Result (List B)) {ys : List B}
    → (r >>= λ y. rs >>= λ zs. ok (y ∷ zs)) ≡ ok ys
    → (y : B) × (zs : List B) × (r ≡ ok y) × (rs ≡ ok zs) × (ys ≡ y ∷ zs)
cons-eq-ok (ok y) (ok zs) e = (y, zs, refl, refl, ground arith)
cons-eq-ok (ok y) (err x) e = cc
cons-eq-ok (ok y) panic e = cc
cons-eq-ok (err x) rs e = cc
cons-eq-ok panic rs e = cc

-- What a successful `traverse` over a longer list has done.
pub traverse-cons {ℓ κ} :
    {A : Type ℓ} {B : Type κ} (f : A → Result B) (x : A) (xs : List A) {ys : List B}
    → traverse f (x ∷ xs) ≡ ok ys
    → (y : B) × (zs : List B) × (f x ≡ ok y) × (traverse f xs ≡ ok zs) × (ys ≡ y ∷ zs)
unfolding traverse
traverse-cons f x xs e = cons-eq-ok (f x) (traverse f xs) e

-- What holds of every result of `f` holds of all results of `traverse f`.
pub All-traverse {ℓ κ μ} :
    {A : Type ℓ} {B : Type κ} (P : B → Type μ) (f : A → Result B)
    → ((x : A) (y : B) → f x ≡ ok y → P y)
    → (xs : List A) (ys : List B) → traverse f xs ≡ ok ys
    → All P ys
unfolding traverse
All-traverse P f h [] ys e = let e' : ys ≡ [] = ground arith in rw e' tt
All-traverse P f h (x ∷ xs) ys e =
    let (y, zs, head, rest, split) = traverse-cons f x xs e in
    rw split (h x y head, All-traverse P f h xs zs rest)

-- A step that always succeeds turns `traverse` into `map`.
pub traverse-map {ℓ κ μ} :
    {A : Type ℓ} {B : Type κ} (P : A → Type μ) (f : A → Result B) (g : A → B)
    → ((x : A) → P x → f x ≡ ok (g x))
    → (xs : List A) → All P xs
    → traverse f xs ≡ ok (map g xs)
unfolding traverse
traverse-map P f g h [] p = refl
traverse-map P f g h (x ∷ xs) (p, ps) = rw (h x p, traverse-map P f g h xs ps)

pub traverse-append {ℓ κ} :
    {A : Type ℓ} {B : Type κ} (f : A → Result B) (xs zs : List A) {ys ws : List B}
    → traverse f xs ≡ ok ys
    → traverse f zs ≡ ok ws
    → traverse f (xs ++ zs) ≡ ok (ys ++ ws)
unfolding traverse
traverse-append f [] zs {ys} e h = let e' : ys ≡ [] = ground arith in rw e' h
traverse-append f (x ∷ xs) zs {ys} {ws} e h =
    let (y, rest, head, tail, split) = traverse-cons f x xs e in
    rw (head, traverse-append f xs zs tail h) (ap (λ l. ok (l ++ ws)) (sym split))
