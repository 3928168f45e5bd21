-- ===== src/Ui/Requests.antt =====
-- `PendingRequest` of crates/gdrive-ui/src/dbus_client.rs. An `AbortHandle` is a number; a method that
-- aborts one gives it beside the new state.
use gd_client.Prelude.{
  ℕ, Bool, true, false, List, [], ◌∷◌, Option, none, some, ◌≡◌, ◌<◌, ◌+◌, ◌%◌, ◌==◌, arith, refl,
  u64_mod, next_u64, if◌then◌else◌,
}

pub record PendingRequest : Type 0 where
  pub generation : ℕ
  pub handle : Option ℕ

abbrev pub new_request : PendingRequest
new_request = record { generation = 0; handle = none }

unfoldable pub cancel : PendingRequest → PendingRequest × Option ℕ
cancel p = (record { generation = next_u64 p.generation; handle = none }, p.handle)

-- `begin`, with the generation that it returns
unfoldable pub begin : PendingRequest → (PendingRequest × Option ℕ) × ℕ
begin p = (cancel p, (cancel p).0.generation)

unfoldable pub attach : ℕ → PendingRequest → PendingRequest
attach handle p = record p { handle = some handle }

unfoldable pub finish : ℕ → PendingRequest → Bool × PendingRequest
finish generation p =
    if generation == p.generation then (true, record p { handle = none }) else (false, p)

-- What happens to a pending request, in any order.
pub data RequestOp : Type 0 where
  cancel_op begin_op : RequestOp
  attach_op finish_op : ℕ → RequestOp

unfoldable pub request_op : RequestOp → PendingRequest → PendingRequest
request_op cancel_op p = (cancel p).0
request_op begin_op p = (begin p).0.0
request_op (attach_op handle) p = attach handle p
request_op (finish_op generation) p = (finish generation p).1

abbrev pub request_ops : List RequestOp → PendingRequest → PendingRequest
request_ops [] p = p
request_ops (op ∷ ops) p = request_ops ops (request_op op p)

abbrev replaces : RequestOp → ℕ
replaces cancel_op = 1
replaces begin_op = 1
replaces (attach_op _) = 0
replaces (finish_op _) = 0

-- How many cancellations and new requests there are.
abbrev pub replacements : List RequestOp → ℕ
replacements [] = 0
replacements (op ∷ ops) = replaces op + replacements ops

generation-request_op :
    (op : RequestOp) (p : PendingRequest)
    → (request_op op p).generation
      ≡ (if replaces op == 0 then p.generation else next_u64 p.generation)
unfolding request_op cancel begin attach finish
generation-request_op cancel_op p = refl
generation-request_op begin_op p = refl
generation-request_op (attach_op handle) p = refl
generation-request_op (finish_op g) p = ground arith

generation-request_ops :
    (ops : List RequestOp) (p : PendingRequest)
    → p.generation < u64_mod
    → (request_ops ops p).generation ≡ (p.generation + replacements ops) % u64_mod
generation-request_ops [] p h = omega arith
generation-request_ops (op ∷ ops) p h =
    ground (arith, generation-request_op op p, generation-request_ops ops (request_op op p))

-- The completion of a request is accepted exactly if no cancellation and no newer request came between,
-- whatever else did and whatever was pending before, where fewer than 2^64 of these came.
pub finish-begin :
    (p : PendingRequest) (ops : List RequestOp)
    → replacements ops < u64_mod
    → (finish (begin p).1 (request_ops ops (begin p).0.0)).0 ≡ (replacements ops == 0)
unfolding finish begin cancel
finish-begin p ops few =
    let after =
      generation-request_ops ops (record { generation = next_u64 p.generation; handle = none })
        (omega arith) in
    ground (arith, after)
