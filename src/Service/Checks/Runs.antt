-- ===== src/Service/Checks/Runs.antt =====
-- The implementation that `sign` has found for the sender.
use mathlib.Core.Path.{subst}
use tornado_4337_relayer.Base.{
  ◌&&◌, ◌++◌, length, drop, err, ok_injective, ◌≡◌, refl, true, Option, none, some, arith, ◌==◌,
  any, ◌∙◌, ap, ok, Bool-cases, Option-cases, inl, inr, ◌⊎◌, or_throw-eq-ok,
}
use tornado_4337_relayer.Errors.{failure, thrown}
use tornado_4337_relayer.Viem.{Viem, Address}
use tornado_4337_relayer.Store.{Store}
use tornado_4337_relayer.UserOp.{RpcUserOperation, or_else, to_lower_case, starts_with}
use tornado_4337_relayer.Base.Text.{Text, codes, text_eq}
use tornado_4337_relayer.Service.Stub.{sender_implementation_from_op}
use tornado_4337_relayer.Service.{Service, World, for_code}
use tornado_4337_relayer.Service.Act.{lift->>=-eq-ok}
use tornado_4337_relayer.Service.Checks.{
  delegated_to, sender_implementation, allowlisted, resolve_sender_implementation,
}

module _ (v : Viem) (svc : Service) (w : World) (op : RpcUserOperation) where
  empty_code : length (to_lower_case (codes "0x")) ≡ 48 → ⊥
  unfolding to_lower_case
  empty_code e = cc

  -- a delegation designator, in lower case, that names the implementation
  pub record Designates (code : Text) (implementation : Address) : Type 0 where
    pub marked : starts_with code (codes "0xef0100") ≡ true
    pub sized : length code ≡ 48
    pub named : v.parse_address (codes "0x" ++ drop 8 code) ≡ some implementation

  -- The implementation is the one of the authorization that the operation carries; without one, the
  -- one that the sender's code designates.
  abbrev pub Runs : Address → Type 0
  Runs implementation =
      (sender_implementation_from_op v op ≡ some implementation)
      ⊎ ((sender_implementation_from_op v op ≡ none)
          × (code : Text) × (w.get_code op.sender ≡ some (some code))
          × Designates (to_lower_case code) implementation)

  delegated_to-Designates :
      (code : Text) (a : Address) → delegated_to v code ≡ ok a → Designates code a
  unfolding delegated_to
  delegated_to-Designates code a e =
      elim (Bool-cases (starts_with code (codes "0xef0100") && length code == 48)) [
        | inl is ↦ record {
          marked = ground arith;
          sized = ground arith;
          named = or_throw-eq-ok _ (failure thrown) (rw (is, delegated_to) at e);
        }
        | inr other ↦ elim (Bool-cases (text_eq code (codes "0x"))) [
          | inl empty ↦ cc (rw empty at (rw (other, delegated_to) at e))
          | inr contract ↦ cc (rw contract at (rw (other, delegated_to) at e))
        ]
      ]

  sender_implementation-Runs : (a : Address) → sender_implementation v w op ≡ ok a → Runs a
  unfolding sender_implementation
  sender_implementation-Runs a e = elim (Option-cases (sender_implementation_from_op v op)) [
    | inr (b, is) ↦ inl (is ∙ ap some (ok_injective b a (rw (is, sender_implementation) at e)))
    | inl unnamed ↦
        let (code, read, designates) =
          designated (w.get_code op.sender) refl (rw (unnamed, sender_implementation) at e) in
        inr (unnamed, code, read, designates)
  ]
    where
      designated :
          (answer : Option (Option Text))
          → w.get_code op.sender ≡ answer
          → elim answer [
            | none ↦ err (failure thrown)
            | some code ↦ delegated_to v (to_lower_case (or_else code (codes "0x")))
          ]
            ≡ ok a
          → (code : Text) × (w.get_code op.sender ≡ some (some code))
            × Designates (to_lower_case code) a
      designated none is e = cc
      designated (some none) is e =
          let d = delegated_to-Designates (to_lower_case (codes "0x")) a e in
          absurd (empty_code d.sized)
      designated (some (some code)) is e = (code, is, delegated_to-Designates _ a e)

  pub record Implements (implementation : Address) : Type 0 where
    pub runs : Runs implementation
    pub listed : any (λ b. b == implementation) svc.allowed_sender_implementations ≡ true

  allowlisted-eq-ok :
      (a b : Address)
      → allowlisted v svc a ≡ ok b
      → (a ≡ b) × (any (λ c. c == b) svc.allowed_sender_implementations ≡ true)
  unfolding allowlisted
  allowlisted-eq-ok a b e =
      elim (Bool-cases (any (λ c. c == a) svc.allowed_sender_implementations)) [
        | inl is ↦
            let same : a ≡ b = cc (rw (is, allowlisted) at e) in
            (same, subst (λ x. any (λ c. c == x) svc.allowed_sender_implementations ≡ true) same is)
        | inr other ↦ cc (rw (other, allowlisted) at e)
      ]

  pub resolved :
      (s t : Store) (a : Address)
      → resolve_sender_implementation v svc w op s ≡ (ok a, t)
      → Implements a × (t ≡ w.meanwhile for_code s)
  unfolding resolve_sender_implementation
  resolved s t a e =
      let (b, runs, e1) = lift->>=-eq-ok (sender_implementation v w op) _ e in
      let (same, listed) = allowlisted-eq-ok b a cc in
      (record { runs = sender_implementation-Runs a (runs ∙ ap ok same); listed = listed }, cc)
