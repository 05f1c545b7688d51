-- ===== src/UserOp/Hash/Examples.antt =====
-- A `Viem` whose hash and encoding are injective, and two requests that share a hash.
use tornado_4337_relayer.Base.{ℕ, some, List, [], ◌∷◌, ◌++◌, length}
use tornado_4337_relayer.Base.Text.{Text, codes}
use tornado_4337_relayer.Viem.{
  Viem, Address, AbiValue, uint48, uint256, abi_address, bytes32, abi_bytes,
}
use tornado_4337_relayer.Viem.Sample.{sample_viem}
use tornado_4337_relayer.UserOp.{RpcUserOperation, FeeTerms}
use tornado_4337_relayer.Service.Sign.Examples.{sample_op, sample_data}
use tornado_4337_relayer.UserOp.Hash.Fields.{term_words}

abbrev text_of : AbiValue → Text
text_of (uint48 n) = n ∷ []
text_of (uint256 n) = n ∷ []
text_of (abi_address n) = n ∷ []
text_of (bytes32 t) = t
text_of (abi_bytes t) = t

-- each value after its length
abbrev encode : List AbiValue → Text
encode [] = []
encode (x ∷ xs) = length (text_of x) ∷ (text_of x ++ encode xs)

abbrev binding_viem : Viem
binding_viem = record sample_viem { encode_abi = λ xs. some (encode xs) }

-- the bytes of a string are the string
abbrev bytes : Text → Text
bytes s = s

abbrev chain : ℕ
chain = 1

abbrev payer : Address
payer = 5

abbrev terms : FeeTerms
terms = sample_data.terms

-- the same nonce, spelled in another way
abbrev respelled_op : RpcUserOperation
respelled_op = record sample_op { nonce = some (codes "0x00") }

abbrev fields : Text
fields = encode (
    abi_address 10
    ∷ uint256 0
    ∷ bytes32 (codes "0x")
    ∷ bytes32 (codes "0x")
    ∷ bytes32 (codes "0x55")
    ∷ uint256 34
    ∷ uint256 5
    ∷ bytes32 (codes "0x12")
    ∷ [])

abbrev sample_hash : Text
sample_hash = encode (term_words binding_viem fields 1 5 terms)
