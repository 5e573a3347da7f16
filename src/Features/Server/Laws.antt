-- ===== src/Features/Server/Laws.antt =====
-- What the operations rely on of spine-go's `UpdateData` with a partial filter and no delete
-- filter: a data item whose identifier is new is appended, and the rest is kept.
use eebus_go.Prelude.{ℕ, All, ◌≡◌, ◌≢◌, Option, none, List, [], ◌∷◌, ◌++◌}
use eebus_go.Features.Filter.{Copy, listed}
use eebus_go.Features.Server.{updated, UpdateData}

abbrev pub known : {A : Type 0} → Copy A → List A
known (listed xs) = xs
known _ = []

pub record IsAppending {T : Type 0} (key : T → Option ℕ) (update_data : UpdateData T) : Type 0 where
  pub appends :
      (c : Copy T) (x : T)
      → All (λ (y : T). key y ≢ key x) (known c)
      → update_data c (x ∷ []) none ≡ updated (listed (known c ++ x ∷ []))
