-- ===== src/Cosign/History.antt =====
-- Any sequence of requests to CosignService, from any devices and with any failures of the database.
use mathlib.Core.List.{append-nil}
use latch_api.Common.{
  ℕ, ◌≡◌, sym, ltb, any, Bool-cases, inl, inr, arith, ap, List, [], ◌∷◌, Option, some,
}
use latch_api.Common.Text.{Text}
use latch_api.Common.Database.{
  World, Keeps, Keeps-pure, Keeps-fail, Keeps-or_fail, Keeps-ask, Keeps-fail_if, Keeps-bind,
  Keeps-exec, Keeps-try_query, try_query,
}
use latch_api.Common.Rows.{null_str}
use latch_api.External.{External}
use latch_api.Cosign.Tables.{
  CosignRequest, CosignSignature, CosignTables, cancel_cosign_request, mark_cosign_submitted,
  insert_cosign_request, insert_cosign_signature, has_request_id,
}
use latch_api.Cosign.Service.{
  CreateCosignInput, Draw, assemble, create_request, assemble_all, list_requests, get_by_id,
  internal, new_request, new_signature, get_request, add_signature, mark_submitted, cancel,
}
use latch_api.Cosign.Settled.{
  IsSettled, stored_requests, cancel_cosign_request-IsSettled, mark_cosign_submitted-IsSettled,
  insert_cosign_request-IsSettled, insert_cosign_signature-IsSettled,
}
use latch_api.Cosign.Signatures.{
  Extends, IsOnce, insert_cosign_signature-Extends, insert_cosign_signature-IsOnce,
}

pub data CosignCall : Type 0 where
  create_call : Draw → CreateCosignInput → CosignCall
  list_call : ℕ → Text → CosignCall
  get_call : Text → CosignCall
  sign_call : Draw → Text → Text → Text → CosignCall
  submit_call : ℕ → Text → Text → CosignCall
  cancel_call : ℕ → Text → CosignCall

ruleset reads = (Keeps-pure, Keeps-fail, Keeps-or_fail, Keeps-ask, Keeps-fail_if, Keeps-bind)

-- A new request brings no signature.
insert_cosign_request-signatures :
    (r : CosignRequest) (s t : CosignTables) (a : CosignRequest)
    → insert_cosign_request r s ≡ some (a, t)
    → t.signatures ≡ s.signatures
unfolding insert_cosign_request
insert_cosign_request-signatures r s t a stored = elim (Bool-cases (ltb r.threshold 1)) [
  | inl low ↦ absurd (ground arith)
  | inr fits ↦ elim (Bool-cases (any (has_request_id r.id) s.requests)) [
    | inl taken ↦ absurd (ground arith)
    | inr free ↦
        ap (λ u. u.signatures) (stored_requests (rw (insert_cosign_request, fits, free) at stored))
  ]
]

-- What each of the four queries that write keeps.
record Kept (P : CosignTables → Type 0) : Type 0 where
  cancels : (now id : ℕ) (t : CosignTables) → P t → P (cancel_cosign_request now id t)
  submits :
      (now id : ℕ) (hash : Option Text) (t : CosignTables)
      → P t
      → P (mark_cosign_submitted now id hash t)
  creates :
      (r : CosignRequest) (s t : CosignTables) (a : CosignRequest)
      → P s
      → insert_cosign_request r s ≡ some (a, t)
      → P t
  signs :
      (x : CosignSignature) (s t : CosignTables) (a : Unit {0})
      → P s
      → insert_cosign_signature x s ≡ some (a, t)
      → P t

assemble-Keeps : (P : CosignTables → Type 0) (r : CosignRequest) → Keeps P (assemble r)
unfolding assemble
assemble-Keeps P r = search reads depth 8

assemble_all-Keeps :
    (P : CosignTables → Type 0) (rs : List CosignRequest) → Keeps P (assemble_all rs)
unfolding assemble_all
assemble_all-Keeps P [] = Keeps-pure P []
assemble_all-Keeps P (r ∷ rs) =
    Keeps-bind P _ _ (assemble-Keeps P r)
      λ view. Keeps-bind P _ _ (assemble_all-Keeps P rs) λ rest. Keeps-pure P _

module _ (ext : External) where
  get_by_id-Keeps : (P : CosignTables → Type 0) (id : Text) → Keeps P (get_by_id ext id)
  unfolding get_by_id
  get_by_id-Keeps P id = search reads depth 12

  -- The tables after one request.
  unfoldable pub handle : CosignCall → World CosignTables → World CosignTables
  handle (create_call draw input) w = (create_request draw input w).1
  handle (list_call now queue) w = (list_requests now queue w).1
  handle (get_call id) w = (get_request ext id w).1
  handle (sign_call draw id signer entry) w = (add_signature ext draw id signer entry w).1
  handle (submit_call now id hash) w = (mark_submitted ext now id hash w).1
  handle (cancel_call now id) w = (cancel ext now id w).1

  unfoldable pub handle_all : List CosignCall → World CosignTables → World CosignTables
  unfolding handle
  handle_all [] w = w
  handle_all (c ∷ cs) w = handle_all cs (handle c w)

  module _ (P : CosignTables → Type 0) (kept : Kept P) where
    create_request-Keeps :
        (draw : Draw) (input : CreateCosignInput) → Keeps P (create_request draw input)
    unfolding create_request
    create_request-Keeps draw input =
        Keeps-bind P (try_query internal (insert_cosign_request (new_request draw input))) assemble
          (Keeps-try_query P internal (insert_cosign_request (new_request draw input))
            (λ s t a p q. kept.creates (new_request draw input) s t a p q))
          (λ row. assemble-Keeps P row)

    list_requests-Keeps : (now : ℕ) (queue : Text) → Keeps P (list_requests now queue)
    unfolding list_requests
    list_requests-Keeps now queue = search (reads, assemble_all-Keeps) depth 8

    get_request-Keeps : (id : Text) → Keeps P (get_request ext id)
    unfolding get_request
    get_request-Keeps id = search (reads, get_by_id-Keeps, assemble-Keeps) depth 8

    sign-Keeps :
        (draw : Draw) (row : CosignRequest) (signer entry : Text)
        → Keeps P
            (try_query internal (insert_cosign_signature (new_signature draw row.id signer entry)))
    sign-Keeps draw row signer entry =
        Keeps-try_query P internal
          (insert_cosign_signature (new_signature draw row.id signer entry))
          (λ s t a p q. kept.signs (new_signature draw row.id signer entry) s t a p q)

    add_signature-Keeps :
        (draw : Draw) (id signer entry : Text) → Keeps P (add_signature ext draw id signer entry)
    unfolding add_signature
    add_signature-Keeps draw id signer entry =
        search (reads, get_by_id-Keeps, assemble-Keeps, sign-Keeps) depth 12

    mark_submitted-Keeps : (now : ℕ) (id hash : Text) → Keeps P (mark_submitted ext now id hash)
    unfolding mark_submitted
    mark_submitted-Keeps now id hash =
        Keeps-bind P (get_by_id ext id) _ (get_by_id-Keeps P id) (λ row.
          Keeps-exec P internal (mark_cosign_submitted now row.id (null_str hash))
            (λ s p. kept.submits now row.id (null_str hash) s p))

    cancel-Keeps : (now : ℕ) (id : Text) → Keeps P (cancel ext now id)
    unfolding cancel
    cancel-Keeps now id = Keeps-bind P (get_by_id ext id) _ (get_by_id-Keeps P id) (λ row.
        Keeps-exec P internal (cancel_cosign_request now row.id)
          (λ s p. kept.cancels now row.id s p))

    handle-kept : (c : CosignCall) (w : World CosignTables) → P w.store → P (handle c w).store
    unfolding handle
    handle-kept (create_call draw input) w h = (create_request-Keeps draw input).run w h
    handle-kept (list_call now queue) w h = (list_requests-Keeps now queue).run w h
    handle-kept (get_call id) w h = (get_request-Keeps id).run w h
    handle-kept (sign_call draw id signer entry) w h =
        (add_signature-Keeps draw id signer entry).run w h
    handle-kept (submit_call now id hash) w h = (mark_submitted-Keeps now id hash).run w h
    handle-kept (cancel_call now id) w h = (cancel-Keeps now id).run w h

    handle_all-kept :
        (cs : List CosignCall) (w : World CosignTables) → P w.store → P (handle_all cs w).store
    unfolding handle_all
    handle_all-kept [] w h = h
    handle_all-kept (c ∷ cs) w h = handle_all-kept cs (handle c w) (handle-kept c w h)

  -- A cosign request that is not pending, be it submitted, cancelled or expired, is still found with the
  -- same row after any requests, with any of their database calls failing.
  pub handle_all-IsSettled :
      (cs : List CosignCall) (w : World CosignTables) (n : ℕ) (q : CosignRequest)
      → IsSettled n q w.store
      → IsSettled n q (handle_all cs w).store
  handle_all-IsSettled cs w n q =
      handle_all-kept (IsSettled n q)
        (record {
          cancels = cancel_cosign_request-IsSettled n q;
          submits = mark_cosign_submitted-IsSettled n q;
          creates = insert_cosign_request-IsSettled n q;
          signs = insert_cosign_signature-IsSettled n q;
        })
        cs w

  -- If no signer has two signatures for one cosign request, none has after any requests, with any of
  -- their database calls failing.
  pub handle_all-IsOnce :
      (cs : List CosignCall) (w : World CosignTables)
      → IsOnce w.store
      → IsOnce (handle_all cs w).store
  unfolding cancel_cosign_request mark_cosign_submitted
  handle_all-IsOnce cs w =
      handle_all-kept IsOnce
        (record {
          cancels = λ now id t h. h;
          submits = λ now id hash t h. h;
          creates = λ r s t a h stored. rw (insert_cosign_request-signatures r s t a stored) h;
          signs = insert_cosign_signature-IsOnce;
        })
        cs w

  -- The signatures that are stored stay as they are and in their order after any requests, with any of
  -- their database calls failing: new ones only come behind them.
  pub handle_all-Extends :
      (cs : List CosignCall) (w : World CosignTables)
      → Extends w.store.signatures (handle_all cs w).store
  unfolding cancel_cosign_request mark_cosign_submitted
  handle_all-Extends cs w =
      handle_all-kept (Extends w.store.signatures)
        (record {
          cancels = λ now id t h. h;
          submits = λ now id hash t h. h;
          creates = λ r s t a h stored. rw (insert_cosign_request-signatures r s t a stored) h;
          signs = insert_cosign_signature-Extends w.store.signatures;
        })
        cs w ([], sym (append-nil w.store.signatures))
