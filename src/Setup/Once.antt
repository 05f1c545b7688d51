-- ===== src/Setup/Once.antt =====
-- The order of what the set-up sends: one transaction of each kind at most.
use tornado_4337_relayer.Base.{ℕ, ◌<◌, ◌≤◌, ◌≡◌, refl, arith, List, [], ◌∷◌, Result, ok, err}
use tornado_4337_relayer.Base.Step.{pure, lift, continue, ◌>>=◌}
use tornado_4337_relayer.Setup.{
  SetupError, thrown, Tx, deploy_contract, set_router, add_stake, deposit, Receipt, rejected, lost,
  mined, Node, Machine, Setup, send,
}

-- the place of a transaction in the set-up
abbrev pub place : Tx → ℕ
place (deploy_contract entry_point signer margin overhead) = 0
place (set_router paymaster router) = 1
place (add_stake paymaster delay value) = 2
place (deposit paymaster value) = 3

-- The transactions, the last one first, have falling places, all below `n`.
abbrev pub Below : ℕ → List Tx → Type 0
Below n [] = Unit
Below n (tx ∷ rest) = (place tx < n) × Below (place tx) rest

-- a deployment, a router, a stake and a deposit at most, each once and in this order
abbrev pub InOrder : List Tx → Type 0
InOrder sent = Below 4 sent

Below-mono : (a b : ℕ) (l : List Tx) → a ≤ b → Below a l → Below b l
Below-mono a b [] h x = tt
Below-mono a b (tx ∷ l) h (lt, rest) = (omega arith, rest)

-- However `act` ends, it takes places from `a` up to `b` only.
pub record Climbs {A : Type 0} (a b : ℕ) (act : Setup A) : Type 0 where
  pub climbs : (m : Machine) → Below a m.sent → Below b ((act m).1).sent

continued :
    {A B : Type 0} (b c : ℕ) (r : Result SetupError A × Machine) (f : A → Setup B)
    → b ≤ c
    → ((x : A) → r.0 ≡ ok x → Climbs b c (f x))
    → Below b (r.1).sent
    → Below c ((continue (r.0) f (r.1)).1).sent
continued b c (ok x, m) f le next h = (next x refl).climbs m h
continued b c (err e, m) f le next h = Below-mono b c m.sent le h

pub >>=-Climbs :
    {A B : Type 0} (a b c : ℕ) (act : Setup A) (f : A → Setup B)
    → b ≤ c
    → Climbs a b act
    → ((x : A) → Climbs b c (f x))
    → Climbs a c (act >>= f)
>>=-Climbs a b c act f le first next = record {
  climbs = λ m h. continued b c (act m) f le (λ x e. next x) (first.climbs m h);
}

pub lift-Climbs :
    {A B : Type 0} (a b : ℕ) (r : Result SetupError A) (f : A → Setup B)
    → a ≤ b
    → ((x : A) → Climbs a b (f x))
    → Climbs a b (lift r >>= f)
lift-Climbs a b r f le next = record { climbs = λ m h. continued a b (r, m) f le (λ x e. next x) h }

pub pure-Climbs : {A : Type 0} (a b : ℕ) (x : A) → a ≤ b → Climbs {A = A} a b (pure x)
pure-Climbs a b x le = record { climbs = λ m h. Below-mono a b m.sent le h }

module _ (node : Node) where
  sent_by :
      (a b : ℕ) (tx : Tx) (m : Machine)
      → a ≤ place tx
      → place tx < b
      → Below a m.sent
      → Below b ((send node tx m).1).sent
  unfolding send
  sent_by a b tx m after before h =
      elim (node.outcome tx)
        as (λ o.
          Below b
            ((elim o as (λ _. Result SetupError Receipt × Machine) [
              | rejected ↦ (err thrown, m)
              | lost ↦ (err thrown, record m { sent = tx ∷ m.sent })
              | mined receipt ↦ (ok receipt, record m { sent = tx ∷ m.sent })
            ]).1
              ).sent) [
                | rejected ↦ Below-mono a b m.sent (omega arith) h
                | lost ↦ (before, Below-mono a (place tx) m.sent after h)
                | mined r ↦ (before, Below-mono a (place tx) m.sent after h)
              ]

  -- one transaction, and nothing after it
  pub send-Climbs :
      {A : Type 0} (a b : ℕ) (tx : Tx) (x : A)
      → a ≤ place tx
      → place tx < b
      → Climbs a b (send node tx >>= λ r. pure x)
  send-Climbs a b tx x after before =
      >>=-Climbs a b b (send node tx) _ (omega arith)
        (record { climbs = λ m h. sent_by a b tx m after before h })
        (λ r. pure-Climbs b b x (omega arith))

  pub sending-Climbs : (a b : ℕ) (tx : Tx) → a ≤ place tx → place tx < b → Climbs a b (send node tx)
  sending-Climbs a b tx after before = record { climbs = λ m h. sent_by a b tx m after before h }
