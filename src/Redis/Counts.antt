-- ===== src/Redis/Counts.antt =====
-- internal/bus/bus_redis.go: how many operations for a channel's queue are on their way.
use livekit_psrpc.Prelude.{
  ◌≡◌, ℕ, suc, ◌+◌, String, false, List, [], ◌∷◌, ◌++◌, arith, if◌then◌else◌, ◌==◌, string_equality,
  ==_refl,
}
use livekit_psrpc.Redis.State.{WriteOp, exec_publish, reconcile}

abbrev pub count_exec : String → List WriteOp → ℕ
count_exec c [] = 0
count_exec c (exec_publish o ∷ ops) = (if o == c then 1 else 0) + count_exec c ops
count_exec c (reconcile ∷ ops) = count_exec c ops

pub count_exec-append :
    (c : String) (xs ys : List WriteOp)
    → count_exec c (xs ++ ys) ≡ count_exec c xs + count_exec c ys
count_exec-append c [] ys = omega arith
count_exec-append c (exec_publish o ∷ xs) ys = omega (arith, count_exec-append c xs ys)
count_exec-append c (reconcile ∷ xs) ys = count_exec-append c xs ys

pub count_exec-cons :
    (c : String) (op : WriteOp) (ops : List WriteOp)
    → count_exec c (op ∷ ops) ≡ count_exec c (op ∷ []) + count_exec c ops
count_exec-cons c (exec_publish o) ops = omega arith
count_exec-cons c reconcile ops = omega arith

pub count_exec_self :
    (c : String) (ops : List WriteOp) → count_exec c (exec_publish c ∷ ops) ≡ suc (count_exec c ops)
count_exec_self c ops = rw (==_refl c) (omega arith)

pub count_exec_other :
    (c o : String) (ops : List WriteOp)
    → (c == o) ≡ false
    → count_exec o (exec_publish c ∷ ops) ≡ count_exec o ops
count_exec_other c o ops ne = rw ne (omega arith)

pub count_exec_moved :
    (c : String) (op : WriteOp) (callers ops : List WriteOp)
    → count_exec c (op ∷ callers) + count_exec c ops
      ≡ count_exec c callers + count_exec c (ops ++ op ∷ [])
count_exec_moved c op callers ops =
    omega (arith, count_exec-append c ops (op ∷ []), count_exec-cons c op callers)

pub count_exec_rotated :
    (c : String) (op : WriteOp) (callers : List WriteOp)
    → count_exec c (op ∷ callers) ≡ count_exec c (callers ++ op ∷ [])
count_exec_rotated c op callers =
    omega (arith, count_exec-append c callers (op ∷ []), count_exec-cons c op callers)
