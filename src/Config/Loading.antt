-- ===== src/Config/Loading.antt =====
-- When a configuration (bridge/src/config.rs) is accepted.
use poa_bridge.Prelude.{
  String, ◌≡◌, sym, ap, ◌∙◌, ◌⊎◌, inl, inr, Bool, true, Option, none, some, Bool-cases, starts_with,
}
use poa_bridge.Error.{>>=-eq-ok, Result, ok}
use poa_bridge.Config.{LoadNode, Node, node_from_load_struct, check_tls, unwrap, load_speed}

-- The host is the one of the file, and uses TLS or is allowed not to.
abbrev pub IsAllowed : LoadNode → Bool → Node → Type 0
IsAllowed load allow node =
    (load.rpc_host ≡ some node.rpc_host)
    × ((starts_with node.rpc_host "https://" ≡ true) ⊎ (allow ≡ true))

check_tls-ok :
    (host : String) (allow : Bool) (kept : String)
    → check_tls host allow ≡ ok kept
    → (kept ≡ host) × ((starts_with host "https://" ≡ true) ⊎ (allow ≡ true))
unfolding check_tls
check_tls-ok host allow kept e = elim (Bool-cases (starts_with host "https://")) [
  | inl t ↦ (let e' = rw (t, check_tls) at e in cc, inl t)
  | inr f ↦ elim (Bool-cases allow) [
    | inl a ↦ (let e' = rw (f, a) at e in cc, inr a)
    | inr a ↦ absurd (let e' = rw (f, a) at e in cc)
  ]
]

unwrap-ok : (o : Option String) (s : String) → unwrap o ≡ ok s → o ≡ some s
unwrap-ok none s e = cc
unwrap-ok (some t) s e = cc

abbrev host_of : Result Node → String → String
host_of (ok node) d = node.rpc_host
host_of _ d = d

-- A configuration of a node that is accepted has a host, which is used unchanged and, unless
-- insecure endpoints are allowed, has the scheme "https://".
pub node_from_load_struct-IsAllowed :
    (load : LoadNode) (allow : Bool) (node : Node)
    → node_from_load_struct load allow ≡ ok node
    → IsAllowed load allow node
unfolding node_from_load_struct
node_from_load_struct-IsAllowed load allow node e =
    let (speed, es, e1) = >>=-eq-ok (load_speed load.gas_price_speed) _ e in
    let (host, eh, e2) = >>=-eq-ok (unwrap load.rpc_host) _ e1 in
    let (kept, ek, e3) = >>=-eq-ok (check_tls host allow) _ e2 in
    let (same, tls) = check_tls-ok host allow kept ek in
    let named : load.rpc_host ≡ some host = unwrap-ok load.rpc_host host eh in
    let used : node.rpc_host ≡ host = ap (λ (r : Result Node). host_of r host) (sym e3) ∙ same in
    (rw used named, rw used tls)
