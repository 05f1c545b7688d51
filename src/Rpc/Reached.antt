-- ===== src/Rpc/Reached.antt =====
-- Which requests reach `sign`, and what they are answered.
use mathlib.Core.Path.{subst}
use tornado_4337_relayer.Base.{
  ℕ, ◌≡◌, ◌↔◌, refl, sym, ap, ◌∙◌, arith, Bool, true, false, not, ◌&&◌, Result, ok, err,
  throws-eq-ok, >>=-eq-ok, >>=-known, ok_injective, Bool-cases, inl, inr, Option-cases, some,
}
use tornado_4337_relayer.Base.Text.{Text, codes, text_eq}
use tornado_4337_relayer.Base.Integer.{ℤ, pos, negsuc}
use tornado_4337_relayer.Errors.{Error}
use tornado_4337_relayer.Viem.{Viem}
use tornado_4337_relayer.UserOp.{RpcUserOperation, to_lower_case}
use tornado_4337_relayer.Service.{
  RefundTo, undefined_refund, null_refund, other_refund, refund_text,
}
use tornado_4337_relayer.Rpc.{
  Value, integer, fraction, get, big_int_of, refund_of, undefined, null, boolean, number, string,
  object, Request, Methods, Failure, rpc_error, is_text, param, or_value, context_of, lift_error,
  chain_id_of, op_fields, same_chain, same_entry_point, parse_sponsor_params, dispatch, run_method,
  run, outcome_of, Reply, handle,
}

lift_error-eq-ok : {A : Type 0} (r : Result Error A) (a : A) → lift_error r ≡ ok a → r ≡ ok a
unfolding lift_error
lift_error-eq-ok (ok b) a e = ap ok (ok_injective b a e)
lift_error-eq-ok (err x) a e = cc

module _ (v : Viem) (read_op : (Text → Value) → RpcUserOperation) where
  outcome_of-eq-ok :
      {A : Type 0} (r : Result Failure A) (a : A) → outcome_of v read_op r ≡ ok a → r ≡ ok a
  outcome_of-eq-ok (ok b) a e = ap ok (ok_injective b a e)
  outcome_of-eq-ok (err x) a e = cc

  -- the text is there, and spells the EntryPoint in any case
  abbrev pub Spells : Text → Value → Type 0
  Spells entry_point (string t) = text_eq (to_lower_case t) (to_lower_case entry_point) ≡ true
  Spells entry_point _ = ⊥

  -- a chain id, as hex, as a number or as a Boolean
  abbrev pub ChainIs : ℕ → Value → Type 0
  ChainIs n (string t) = v.hex_to_big_int t ≡ some n
  ChainIs n (number (integer z)) = z ≡ pos n
  ChainIs n (boolean true) = n ≡ 1
  ChainIs n (boolean false) = n ≡ 0
  ChainIs n _ = ⊥

  -- `refundTo` as the request has it
  abbrev pub refund_in : Value → RefundTo
  refund_in undefined = undefined_refund
  refund_in null = null_refund
  refund_in (boolean b) = other_refund
  refund_in (number n) = other_refund
  refund_in (object fields) = other_refund
  refund_in (string t) = refund_text t

  refund_of_lem : (value : Value) → refund_of value ≡ refund_in value
  unfolding refund_of
  refund_of_lem undefined = refl
  refund_of_lem null = refl
  refund_of_lem (boolean b) = refl
  refund_of_lem (number n) = refl
  refund_of_lem (object fields) = refl
  refund_of_lem (string t) = refl

  context_of_lem :
      (value : Value)
      → context_of value ≡ record { refund_to = refund_in (get value (codes "refundTo")) }
  unfolding context_of
  context_of_lem value =
      ap (λ r. record { refund_to = r }) (refund_of_lem (get value (codes "refundTo")))

  chain_id_of_iff :
      (value : Value) (n : ℕ) → (chain_id_of v read_op value ≡ ok (pos n)) ↔ ChainIs n value
  unfolding chain_id_of big_int_of
  chain_id_of_iff undefined n = ((λ e. cc), λ e. absurd e)
  chain_id_of_iff null n = ((λ e. cc), λ e. absurd e)
  chain_id_of_iff (boolean true) n = ((λ e. cc), λ e. cc)
  chain_id_of_iff (boolean false) n = ((λ e. cc), λ e. cc)
  chain_id_of_iff (number (integer z)) n = ((λ e. cc), λ e. cc)
  chain_id_of_iff (number fraction) n = ((λ e. cc), λ e. absurd e)
  chain_id_of_iff (object fields) n = ((λ e. cc), λ e. absurd e)
  chain_id_of_iff (string t) n = elim (Option-cases (v.hex_to_big_int t)) [
    | inl fails ↦ rw fails ((λ e. cc), λ e. cc)
    | inr (m, is) ↦ rw is ((λ e. cc), λ e. cc)
  ]

  module _ {A : Type 0} (service : Methods A) (request : Request) where
    -- An operation with an address and a call, this EntryPoint, this chain, and the answer of `sign`
    -- for them.
    pub record Signs (a : A) : Type 0 where
      pub fields : Text → Value
      pub versioned : is_text (λ t. text_eq t (codes "2.0")) request.jsonrpc ≡ true
      pub has_op : param request.params 0 ≡ object fields
      pub has_sender : is_text v.is_address (fields (codes "sender")) ≡ true
      pub has_call_data : is_text v.is_hex (fields (codes "callData")) ≡ true
      pub for_entry_point : Spells service.entry_point (param request.params 1)
      pub for_chain : ChainIs service.chain_id (param request.params 2)
      pub signed :
          service.sign (read_op fields) (record {
            refund_to = refund_in (get (or_value (param request.params 3) null) (codes "refundTo"));
          })
          ≡ ok a

    op_fields-eq-ok :
        (value : Value) (fields : Text → Value)
        → op_fields v read_op value ≡ ok fields
        → (value ≡ object fields)
          × (is_text v.is_address (fields (codes "sender")) ≡ true)
          × (is_text v.is_hex (fields (codes "callData")) ≡ true)
    unfolding op_fields
    op_fields-eq-ok undefined fields e = cc
    op_fields-eq-ok null fields e = cc
    op_fields-eq-ok (boolean b) fields e = cc
    op_fields-eq-ok (number n) fields e = cc
    op_fields-eq-ok (string t) fields e = cc
    op_fields-eq-ok (object given) fields e =
        let test =
          is_text v.is_address (given (codes "sender"))
          && is_text v.is_hex (given (codes "callData")) in
        elim (Bool-cases test) [
          | inl passed ↦
              subst
                (λ f.
                  (object given ≡ object f)
                  × (is_text v.is_address (f (codes "sender")) ≡ true)
                  × (is_text v.is_hex (f (codes "callData")) ≡ true))
                (ok_injective given fields (rw (op_fields, passed) at e))
                (refl, ground arith, ground arith)
          | inr other ↦ cc (rw (op_fields, other) at e)
        ]

    same_chain-pos : (z : ℤ) (n : ℕ) → same_chain v read_op z n ≡ true → z ≡ pos n
    unfolding same_chain
    same_chain-pos (pos m) n e = ap pos (ground arith)
    same_chain-pos (negsuc m) n e = cc

    positive : (b : Bool) → not b ≡ false → b ≡ true
    positive b e = ground arith

    same_entry_point_iff :
        (value : Value)
        → (same_entry_point v read_op service value ≡ true) ↔ Spells service.entry_point value
    unfolding same_entry_point
    same_entry_point_iff (string t) = ((λ e. e), λ e. e)
    same_entry_point_iff undefined = ((λ e. cc), λ e. absurd e)
    same_entry_point_iff null = ((λ e. cc), λ e. absurd e)
    same_entry_point_iff (boolean b) = ((λ e. cc), λ e. absurd e)
    same_entry_point_iff (number n) = ((λ e. cc), λ e. absurd e)
    same_entry_point_iff (object fields) = ((λ e. cc), λ e. absurd e)

    reached :
        (a : A)
        → dispatch v read_op service (codes "pm_getPaymasterData") request.params ≡ ok a
        → is_text (λ t. text_eq t (codes "2.0")) request.jsonrpc ≡ true
        → Signs a
    unfolding dispatch parse_sponsor_params text_eq
    reached a e versioned =
        let params = request.params in
        let ((op, context), parsed, e1) =
          >>=-eq-ok (parse_sponsor_params v read_op service params) _ e in
        let (fields, read, e2) = >>=-eq-ok (op_fields v read_op (param params 0)) _ parsed in
        let (entry, e3) =
          throws-eq-ok (not (same_entry_point v read_op service (param params 1))) (rpc_error 32602)
            _ e2 in
        let (cid, given, e4) = >>=-eq-ok (chain_id_of v read_op (param params 2)) _ e3 in
        let (chain, e5) =
          throws-eq-ok (not (same_chain v read_op cid service.chain_id)) (rpc_error 32602) _ e4 in
        let (is, sender, call_data) = op_fields-eq-ok (param params 0) fields read in
        record {
          fields = fields;
          versioned = versioned;
          has_op = is;
          has_sender = sender;
          has_call_data = call_data;
          for_entry_point = (same_entry_point_iff (param params 1)).0 (positive _ entry);
          for_chain =
              (chain_id_of_iff (param params 2) service.chain_id).0
                (given ∙ ap ok (same_chain-pos cid service.chain_id (positive _ chain)));
          signed =
              ap (service.sign (read_op fields))
                (sym (context_of_lem (or_value (param params 3) null)))
              ∙ ap (λ x. service.sign (x.0) (x.1)) (ok_injective _ (op, context) e5)
              ∙ lift_error-eq-ok (service.sign op context) a e1;
        }

    parsed_by :
        (a : A) (s : Signs a)
        → parse_sponsor_params v read_op service request.params
          ≡ ok (read_op s.fields, context_of (or_value (param request.params 3) null))
    unfolding parse_sponsor_params op_fields same_chain
    parsed_by a s =
        let read : op_fields v read_op (param request.params 0) ≡ ok s.fields =
          ap (op_fields v read_op) s.has_op ∙ ground (arith, s.has_sender, s.has_call_data) in
        >>=-known (op_fields v read_op (param request.params 0)) _ read
        ∙ rw ((same_entry_point_iff (param request.params 1)).1 s.for_entry_point) (
            rw ((chain_id_of_iff (param request.params 2) service.chain_id).1 s.for_chain)
              (ground arith))

    dispatched :
        (a : A)
        → Signs a
        → dispatch v read_op service (codes "pm_getPaymasterData") request.params ≡ ok a
    unfolding dispatch text_eq lift_error
    dispatched a s =
        >>=-known (parse_sponsor_params v read_op service request.params) _ (parsed_by a s)
        ∙ ap lift_error (
            ap (service.sign (read_op s.fields))
              (context_of_lem (or_value (param request.params 3) null))
            ∙ s.signed)

    run_as :
        request.method ≡ string (codes "pm_getPaymasterData")
        → is_text (λ t. text_eq t (codes "2.0")) request.jsonrpc ≡ true
        → run v read_op service request
          ≡ dispatch v read_op service (codes "pm_getPaymasterData") request.params
    unfolding run run_method
    run_as is versioned =
        rw (versioned, run) (ap (λ m. run_method v read_op service m request.params) is)

    versioned_by :
        (a : A)
        → run v read_op service request ≡ ok a
        → is_text (λ t. text_eq t (codes "2.0")) request.jsonrpc ≡ true
    unfolding run
    versioned_by a e = elim (Bool-cases (is_text (λ t. text_eq t (codes "2.0")) request.jsonrpc)) [
      | inl is ↦ is
      | inr other ↦ cc (rw (other, run) at e)
    ]

    -- A request of `pm_getPaymasterData` is answered with `a`, under its own id, exactly if it is a
    -- JSON-RPC 2.0 request with an operation that has an address and a call, for the service's
    -- EntryPoint and its chain, and `sign` answers `a` for that operation and context.
    pub handle-Signs_iff :
        (a : A)
        → request.method ≡ string (codes "pm_getPaymasterData")
        → (handle v read_op service request
            ≡ record { id = or_value request.id null; outcome = ok a })
          ↔ Signs a
    unfolding handle
    handle-Signs_iff a is = (
      (λ e.
          let ran =
            outcome_of-eq-ok (run v read_op service request) a
              (ap (λ (r : Reply A). r.outcome) e) in
          let versioned = versioned_by a ran in
          reached a (sym (run_as is versioned) ∙ ran) versioned),
      (λ s.
          ap (λ r. record { id = or_value request.id null; outcome = outcome_of v read_op r })
            (run_as is s.versioned ∙ dispatched a s)),
    )
