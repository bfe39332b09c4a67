-- ===== src/Store/Engine/Contract.antt =====
-- What the pipeline relies on in a storage engine.
use pardosa.Prelude.Bytes.{Bytes}
use pardosa.Prelude.Words.{u32_max}
use pardosa.Prelude.{ℕ, ◌≤◌, ◌≡◌, List, [], ◌∷◌, ◌++◌, length}
use pardosa.Failure.{OperationFailure, ok, err}
use pardosa.Container.Frame.RoundTrip.{frame_bytes}
use pardosa.Store.Engine.{StorageEngine, landed, Callback, visit}

-- `contents` is the list of the frames that an engine holds. In a live state it gives them all to a
-- recovery, an append that lands adds the frame behind them, and a refused append changes nothing.
-- Nothing is said of an append whose landing is undetermined.
pub record IsFaithful (crc32c : Bytes → ℕ) (E : StorageEngine) (contents : E.State → List Bytes)
    (Live : E.State → Type 0) : Type 1 where
  pub recovers :
      (S : Type 0) (chunk_size : ℕ) (on_frame : Callback S) (st : S) (s : E.State)
      → Live s
      → (s' : E.State) × (E.recover_frames S chunk_size on_frame st s
          ≡ (visit on_frame 0 (contents s) st, s'))
        × Live s'
        × (contents s' ≡ contents s)
  pub lands :
      (payload : Bytes) (s s' : E.State) (n : ℕ)
      → length payload ≤ u32_max
      → Live s
      → E.append_block (frame_bytes crc32c payload) s ≡ (ok (landed n), s')
      → Live s' × (contents s' ≡ contents s ++ (payload ∷ []))
  pub refuses :
      (payload : Bytes) (s s' : E.State) (e : OperationFailure)
      → Live s
      → E.append_block (frame_bytes crc32c payload) s ≡ (err e, s')
      → Live s' × (contents s' ≡ contents s)
