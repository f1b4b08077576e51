-- ===== src/DoTx/Batches.antt =====
-- The bytes and the replies of a batch of packets of `doTx`.
use native.Mathlib.Nat.{suc-mul}
use gofast.Base.{
  ℕ, suc, ◌+◌, ◌*◌, ◌≤◌, ◌≡◌, refl, sym, ap, ◌∙◌, Bool, true, false, List, [], ◌∷◌, ◌++◌,
  append_assoc, append-nil, Option, ok, ltb, inl, inr, Bool-cases, if◌then◌else◌, length,
  length-append, All, arith,
}
use gofast.Bytes.Written.{overwrite, emit-Writes, copy_in-Writes}
use gofast.Bytes.{copy_in}
use gofast.DoTx.{Txproto, Reply, to_sender, to_pool, consolidate, reply_all}
use gofast.Rx.{Error}

abbrev pub bytes_of : List Txproto → List ℕ
bytes_of [] = []
bytes_of (arg ∷ batch) = arg.packet ++ bytes_of batch

abbrev pub joined : List (List ℕ) → List ℕ
joined [] = []
joined (bs ∷ sent) = bs ++ joined sent

abbrev pub answered_by : Reply → Txproto
answered_by (to_sender arg n err) = arg
answered_by (to_pool arg n err) = arg

abbrev pub answered : List Reply → List Txproto
answered [] = []
answered (r ∷ replies) = answered_by r ∷ answered replies

abbrev pub non_empty : List Txproto → ℕ
non_empty [] = 0
non_empty (arg ∷ batch) = let k = non_empty batch in if ltb 0 (length arg.packet) then suc k else k

pub bytes_of-append : (xs ys : List Txproto) → bytes_of (xs ++ ys) ≡ bytes_of xs ++ bytes_of ys
bytes_of-append [] ys = refl
bytes_of-append (x ∷ xs) ys =
    ap (λ (bs : List ℕ). x.packet ++ bs) (bytes_of-append xs ys) ∙ sym (append_assoc x.packet _ _)

pub joined-append : (xs ys : List (List ℕ)) → joined (xs ++ ys) ≡ joined xs ++ joined ys
joined-append [] ys = refl
joined-append (x ∷ xs) ys =
    ap (λ (bs : List ℕ). x ++ bs) (joined-append xs ys) ∙ sym (append_assoc x _ _)

pub answered-append : (xs ys : List Reply) → answered (xs ++ ys) ≡ answered xs ++ answered ys
answered-append [] ys = refl
answered-append (x ∷ xs) ys = ap (λ (l : List Txproto). answered_by x ∷ l) (answered-append xs ys)

answered_by-if :
    (b : Bool) (p q : Reply) (arg : Txproto)
    → answered_by p ≡ arg
    → answered_by q ≡ arg
    → answered_by (if b then p else q) ≡ arg
answered_by-if true p q arg h k = h
answered_by-if false p q arg h k = k

pub answered-reply_all :
    (err : Option Error) (batch : List Txproto) → answered (reply_all err batch) ≡ batch
answered-reply_all err [] = refl
answered-reply_all err (arg ∷ batch) = cc (
  answered_by-if arg.async (to_pool arg (length arg.packet) err)
      (to_sender arg (length arg.packet) err) arg refl refl,
  answered-reply_all err batch,
)

empty_list : (bs : List ℕ) → ltb 0 (length bs) ≡ false → bs ≡ []
empty_list [] e = refl
empty_list (b ∷ bs) e = absurd (ground arith)

pub consolidate-overwrite :
    (batch : List Txproto) (front buf : List ℕ) (k : ℕ)
    → length (front ++ bytes_of batch) ≤ length buf
    → consolidate batch (overwrite front buf, length front, k)
      ≡ ok (
        overwrite (front ++ bytes_of batch) buf,
        length (front ++ bytes_of batch),
        k + non_empty batch,
      )
unfolding consolidate
consolidate-overwrite [] front buf k h =
    let same : k ≡ k + 0 = omega arith in
    rw append-nil (ap (λ (j : ℕ). ok (overwrite front buf, length front, j)) same)
consolidate-overwrite (arg ∷ batch) front buf k h = elim (Bool-cases (ltb 0 (length arg.packet))) [
  | inl y ↦
      let next = front ++ arg.packet in
      let same : next ++ bytes_of batch ≡ front ++ (arg.packet ++ bytes_of batch) =
        append_assoc front arg.packet (bytes_of batch) in
      let fits : length (next ++ bytes_of batch) ≤ length buf = rw same h in
      let count : k + 1 + non_empty batch ≡ k + suc (non_empty batch) = omega arith in
      rw (
        y,
        emit-Writes (copy_in arg.packet) front arg.packet buf (copy_in-Writes arg.packet)
            (omega (arith, length-append next (bytes_of batch))),
        consolidate-overwrite batch next buf (k + 1) fits,
        same,
        count,
      )
  | inr n ↦
      let none_there : arg.packet ++ bytes_of batch ≡ bytes_of batch =
        ap (λ (bs : List ℕ). bs ++ bytes_of batch) (empty_list arg.packet n) in
      rw (n, none_there) (consolidate-overwrite batch front buf k (rw none_there at h))
]

pub length-bytes_of :
    (size : ℕ) (batch : List Txproto)
    → All (λ arg. length arg.packet ≤ size) batch
    → length (bytes_of batch) ≤ length batch * size
length-bytes_of size [] h = omega arith
length-bytes_of size (arg ∷ batch) h = omega (
  arith,
  suc-mul (length batch) size,
  length-append arg.packet (bytes_of batch),
  length-bytes_of size batch h.1,
  h.0,
)
