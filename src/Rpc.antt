-- ===== src/Rpc.antt =====
-- relayer/src/rpc.ts: from a JSON-RPC request to a reply.
pub mod Reached
mod Examples
use tornado_4337_relayer.Base.{
  ℕ, zero, suc, Bool, true, false, not, ◌&&◌, ◌||◌, Option, none, some, List, [], ◌∷◌, ◌==◌, Result,
  ok, err, ◌>>=◌, ◌>>◌, or_throw, throw_if, if◌then◌else◌, map,
}
use tornado_4337_relayer.Base.Text.{Text, codes, text_eq}
use tornado_4337_relayer.Base.Decimal.{big_int}
use tornado_4337_relayer.Base.Integer.{ℤ, pos, negsuc}
use tornado_4337_relayer.Errors.{
  Error, validation_error, failure, Reason, thrown, GasField, call_gas_limit,
  verification_gas_limit, pre_verification_gas, paymaster_verification_gas_limit,
  paymaster_post_op_gas_limit,
}
use tornado_4337_relayer.Viem.{Viem, Address}
use tornado_4337_relayer.UserOp.{RpcUserOperation, to_lower_case}
use tornado_4337_relayer.Service.{
  SponsorContext, RefundTo, undefined_refund, null_refund, other_refund, refund_text,
}

pub data Number : Type 0 where
  integer : ℤ → Number
  fraction : Number

-- A JSON value, or `undefined`. A field that an object does not have is `undefined`; an array among
-- the parameters is not modelled.
pub data Value : Type 0 where
  undefined null : Value
  boolean : Bool → Value
  number : Number → Value
  string : Text → Value
  object : (Text → Value) → Value

-- `JsonRpcRequest`; `params` is an array, empty where it is left out
pub record Request : Type 0 where
  pub id : Value
  pub jsonrpc : Value
  pub method : Value
  pub params : List Value

-- `RpcError` and what else is caught, by the code that the reply carries (its absolute value)
pub data Failure : Type 0 where
  rpc_error : ℕ → Failure
  service_error : Error → Failure

abbrev pub code_of : Failure → ℕ
code_of (rpc_error code) = code
code_of (service_error (validation_error reason code)) = code
code_of (service_error (failure reason)) = 32603

-- what `quote` is called with: a JSON number may be negative
pub record QuoteRequest : Type 0 where
  pub pool : Address
  pub tail_calls_gas : Option ℤ
  pub gas : GasField → Option ℤ
  pub max_fee_per_gas : Option ℤ

-- The methods of the service that a request can reach, with their answers of type `A`, and the two
-- fields of its configuration that a request is compared with. `entry_point` is the text of the
-- configuration.
pub record Methods (A : Type 0) : Type 0 where
  pub chain_id : ℕ
  pub entry_point : Text
  pub status : Result Error A
  pub quote : QuoteRequest → Result Error A
  pub stub_data : RpcUserOperation → SponsorContext → Result Error A
  pub sign : RpcUserOperation → SponsorContext → Result Error A

pub record Reply (A : Type 0) : Type 0 where
  pub id : Value
  pub outcome : Result ℕ A

-- `a ?? otherwise`
abbrev pub or_value : Value → Value → Value
or_value undefined otherwise = otherwise
or_value null otherwise = otherwise
or_value a otherwise = a

abbrev pub param : List Value → ℕ → Value
param [] i = undefined
param (a ∷ rest) zero = a
param (a ∷ rest) (suc i) = param rest i

abbrev pub get : Value → Text → Value
get (object fields) name = fields name
get _ name = undefined

abbrev pub is_text : (Text → Bool) → Value → Bool
is_text p (string t) = p t
is_text p _ = false

lift_error : {A : Type 0} → Result Error A → Result Failure A
lift_error (ok a) = ok a
lift_error (err e) = err (service_error e)

refund_of : Value → RefundTo
refund_of undefined = undefined_refund
refund_of null = null_refund
refund_of (string t) = refund_text t
refund_of _ = other_refund

-- `context` as `SponsorContext`: only `refundTo` is read of it
pub context_of : Value → SponsorContext
unfolding refund_of
context_of context = record { refund_to = refund_of (get context (codes "refundTo")) }

gas_key : GasField → Text
gas_key call_gas_limit = codes "callGasLimit"
gas_key verification_gas_limit = codes "verificationGasLimit"
gas_key pre_verification_gas = codes "preVerificationGas"
gas_key paymaster_verification_gas_limit = codes "paymasterVerificationGasLimit"
gas_key paymaster_post_op_gas_limit = codes "paymasterPostOpGasLimit"
gas_key _ = []

-- `read_op` reads an object as the `RpcUserOperation` that it is cast to.
module _ (v : Viem) (read_op : (Text → Value) → RpcUserOperation) where
  -- `BigInt(value)` of a value that is no string
  big_int_of : Value → Result Failure ℤ
  big_int_of (number (integer n)) = ok n
  big_int_of (boolean b) = ok (pos (if b then 1 else 0))
  big_int_of _ = err (service_error (failure thrown))

  unfoldable pub parse_quantity : Value → Result Failure ℤ
  unfolding big_int_of
  parse_quantity (string t) = elim (v.is_hex t) [
    | true ↦ elim (v.hex_to_big_int t) [
      | some n ↦ ok (pos n)
      | none ↦ err (service_error (failure thrown))
    ]
    | false ↦ elim (big_int t) [ some n ↦ ok (pos n) | none ↦ err (rpc_error 32602) ]
  ]
  parse_quantity (number n) = big_int_of (number n)
  parse_quantity _ = err (rpc_error 32602)

  -- `value !== undefined ? parseQuantity(value) : undefined`
  optional_quantity : Value → Result Failure (Option ℤ)
  optional_quantity undefined = ok none
  optional_quantity value = do n ← parse_quantity value; ok (some n)

  -- `chainId` as a number: `hexToBigInt` of a string, whatever is in it, `BigInt` of another value
  pub chain_id_of : Value → Result Failure ℤ
  unfolding big_int_of
  chain_id_of (string t) = elim (v.hex_to_big_int t) [
    | some n ↦ ok (pos n)
    | none ↦ err (service_error (failure thrown))
  ]
  chain_id_of value = big_int_of value

  op_fields : Value → Result Failure (Text → Value)
  op_fields (object fields) =
      if is_text v.is_address (fields (codes "sender"))
        && is_text v.is_hex (fields (codes "callData"))
      then ok fields
      else err (rpc_error 32602)
  op_fields _ = err (rpc_error 32602)

  same_chain : ℤ → ℕ → Bool
  same_chain (pos n) chain_id = n == chain_id
  same_chain (negsuc n) chain_id = false

  pub same_entry_point : {A : Type 0} → Methods A → Value → Bool
  same_entry_point service entry_point =
      is_text (λ t. text_eq (to_lower_case t) (to_lower_case service.entry_point)) entry_point

  unfoldable pub parse_sponsor_params :
      {A : Type 0} → Methods A → List Value → Result Failure (RpcUserOperation × SponsorContext)
  unfolding chain_id_of op_fields same_chain same_entry_point context_of
  parse_sponsor_params service params = do
    fields ← op_fields (param params 0)
    throw_if (not (same_entry_point service (param params 1))) (rpc_error 32602)
    cid ← chain_id_of (param params 2)
    throw_if (not (same_chain cid service.chain_id)) (rpc_error 32602)
    ok (read_op fields, context_of (or_value (param params 3) null))

  pool_of : Value → Result Failure Address
  pool_of (string t) =
      if v.is_address t
      then or_throw (v.parse_address t) (service_error (failure thrown))
      else err (rpc_error 32602)
  pool_of _ = err (rpc_error 32602)

  parse_quote_params : Value → Result Failure QuoteRequest
  unfolding optional_quantity pool_of gas_key
  parse_quote_params p = do
    pool ← pool_of (get p (codes "instance"))
    let gas = get p (codes "gas")
    a ← optional_quantity (get gas (gas_key call_gas_limit))
    b ← optional_quantity (get gas (gas_key verification_gas_limit))
    c ← optional_quantity (get gas (gas_key pre_verification_gas))
    d ← optional_quantity (get gas (gas_key paymaster_verification_gas_limit))
    e ← optional_quantity (get gas (gas_key paymaster_post_op_gas_limit))
    tail ← optional_quantity (get p (codes "tailCallsGas"))
    max_fee ← optional_quantity (get p (codes "maxFeePerGas"))
    ok (record {
      pool = pool;
      tail_calls_gas = tail;
      gas = λ field. elim field [
        | call_gas_limit ↦ a
        | verification_gas_limit ↦ b
        | pre_verification_gas ↦ c
        | paymaster_verification_gas_limit ↦ d
        | paymaster_post_op_gas_limit ↦ e
        | _ ↦ none
      ];
      max_fee_per_gas = max_fee;
    })

  unfoldable pub dispatch : {A : Type 0} → Methods A → Text → List Value → Result Failure A
  unfolding lift_error parse_quote_params
  dispatch service method params =
      if text_eq method (codes "tornado_status")
      then lift_error service.status
      else if text_eq method (codes "tornado_quote")
      then (do request ← parse_quote_params (param params 0); lift_error (service.quote request))
      else if text_eq method (codes "pm_getPaymasterStubData")
      then (do
        (op, context) ← parse_sponsor_params service params
        lift_error (service.stub_data op context))
      else if text_eq method (codes "pm_getPaymasterData")
      then (do
        (op, context) ← parse_sponsor_params service params
        lift_error (service.sign op context))
      else err (rpc_error 32601)

  run_method : {A : Type 0} → Methods A → Value → List Value → Result Failure A
  run_method service (string method) params = dispatch service method params
  run_method service _ params = err (rpc_error 32600)

  run : {A : Type 0} → Methods A → Request → Result Failure A
  unfolding run_method
  run service request = elim (is_text (λ t. text_eq t (codes "2.0")) request.jsonrpc) [
    | false ↦ err (rpc_error 32600)
    | true ↦ run_method service request.method request.params
  ]

  abbrev pub outcome_of : {A : Type 0} → Result Failure A → Result ℕ A
  outcome_of (ok a) = ok a
  outcome_of (err e) = err (code_of e)

  unfoldable pub handle : {A : Type 0} → Methods A → Request → Reply A
  unfolding run
  handle service request = record {
    id = or_value request.id null;
    outcome = outcome_of (run service request);
  }

  -- the replies to a batch
  unfoldable pub handle_all : {A : Type 0} → Methods A → List Request → List (Reply A)
  handle_all service requests = map (handle service) requests
