-- ===== src/Caller/Handles/OnCells.antt =====
-- Actions on the heap that use two cells only, as actions on a session with their contents.
use etcd_client.Prelude.{ℕ, ◌<◌, ◌≡◌, refl, ◌∙◌, ap, length}
use etcd_client.Error.{Foreign, Result, ok, err}
use etcd_client.Exec.{Exec, continue, ◌>>=◌}
use etcd_client.Caller.{Session}
use etcd_client.Caller.Handles.{read_cell, write_cell, Heap}
use etcd_client.Caller.Handles.Cells.{
  read_cell-write_cell, write_cell-write_cell, length-write_cell,
}

module _ {Token W : Type 0} (t c : ℕ) where
  -- The contents of the two cells.
  abbrev pub session_at : Heap Token W → Session Token W
  session_at h = record {
    auth_token = read_cell t h.token_cells;
    creds = read_cell c h.creds_cells;
    world = h.world;
  }

  -- The heap with these contents, all other cells as they are.
  abbrev pub put_session : Session Token W → Heap Token W → Heap Token W
  put_session s h = record {
    token_cells = write_cell t s.auth_token h.token_cells;
    creds_cells = write_cell c s.creds h.creds_cells;
    world = s.world;
  }

  pub record HasCells (h : Heap Token W) : Type 0 where
    pub token_cell : t < length h.token_cells
    pub creds_cell : c < length h.creds_cells

  session_at-put_session :
      (s : Session Token W) (h : Heap Token W) → HasCells h → session_at (put_session s h) ≡ s
  session_at-put_session s h has =
      rw
        (
          read_cell-write_cell t s.auth_token h.token_cells has.token_cell,
          read_cell-write_cell c s.creds h.creds_cells has.creds_cell,
        )
        refl

  put_session-put_session :
      (s s' : Session Token W) (h : Heap Token W)
      → put_session s' (put_session s h) ≡ put_session s' h
  put_session-put_session s s' h =
      rw
        (
          write_cell-write_cell t s.auth_token s'.auth_token h.token_cells,
          write_cell-write_cell c s.creds s'.creds h.creds_cells,
        )
        refl

  put_session-HasCells :
      (s : Session Token W) (h : Heap Token W) → HasCells h → HasCells (put_session s h)
  put_session-HasCells s h has = record {
    token_cell = rw (length-write_cell t s.auth_token h.token_cells) has.token_cell;
    creds_cell = rw (length-write_cell c s.creds h.creds_cells) has.creds_cell;
  }

  module _ {F : Foreign} {A : Type 0} where
    -- The outcome of an action on the session, as one on the heap.
    abbrev pub on_cells : Heap Token W → Result F A × Session Token W → Result F A × Heap Token W
    on_cells h (r, s) = (r, put_session s h)

    -- An action on the heap is an action on the session of the two cells and leaves all others alone.
    abbrev pub IsOnCells : Exec F (Heap Token W) A → Exec F (Session Token W) A → Type 0
    IsOnCells m m' = (h : Heap Token W) → HasCells h → m h ≡ on_cells h (m' (session_at h))

    -- After an action that has left a session, an action goes on from it.
    pub from_session :
        (k : Exec F (Heap Token W) A) (k' : Exec F (Session Token W) A)
        → IsOnCells k k'
        → (s : Session Token W) (h : Heap Token W) → HasCells h
        → k (put_session s h) ≡ on_cells h (k' s)
    from_session k k' same s h has =
        same (put_session s h) (put_session-HasCells s h has)
        ∙ ap (λ s1. on_cells (put_session s h) (k' s1)) (session_at-put_session s h has)
        ∙ ap (λ h1. ((k' s).0, h1)) (put_session-put_session s (k' s).1 h)

  module _ {F : Foreign} {A B : Type 0} where
    continue-IsOnCells :
        (k : A → Exec F (Heap Token W) B) (k' : A → Exec F (Session Token W) B)
        → ((a : A) → IsOnCells (k a) (k' a))
        → (r : Result F A) (s : Session Token W) (h : Heap Token W) → HasCells h
        → continue r k (put_session s h) ≡ on_cells h (continue r k' s)
    continue-IsOnCells k k' same (ok a) s h has = from_session (k a) (k' a) (same a) s h has
    continue-IsOnCells k k' same (err e) s h has = refl

    pub bind-IsOnCells :
        (m : Exec F (Heap Token W) A) (m' : Exec F (Session Token W) A)
        (k : A → Exec F (Heap Token W) B) (k' : A → Exec F (Session Token W) B)
        → IsOnCells m m'
        → ((a : A) → IsOnCells (k a) (k' a))
        → IsOnCells (m >>= k) (m' >>= k')
    bind-IsOnCells m m' k k' first same h has =
        rw (first h has) (continue-IsOnCells k k' same _ _ h has)
