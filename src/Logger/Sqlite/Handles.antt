-- ===== src/Logger/Sqlite/Handles.antt =====
-- The handles of the database that the logger has open.
use efimon.Prelude.{ℕ, ◌+◌, ◌-◌, ◌≡◌, Option, none, some, Text}
use efimon.Status.{logger_cannot_open}
use efimon.Logger.Sqlite.{Library, Built, built, refused, destroy}

-- What the documentation says: opening makes a handle, with or without an error, `exec` leaves the
-- handles alone, and closing an open one releases it.
pub record IsCounted {D H : Type 0} (api : Library D H) (handles : D → ℕ) : Type 0 where
  pub handles-open : (t : Text) (d : D) → handles (api.open_file t d).0 ≡ handles d + 1
  pub handles-exec : (h : H) (t : Text) (d : D) → handles (api.exec h t d).0 ≡ handles d
  pub handles-close : (h : H) (d : D) → handles (api.close h d) ≡ handles d - 1

-- From the error of the opening: what the constructor leaves open.
abbrev pub Leaves : {D H : Type 0} → Library D H → (D → ℕ) → Option Text → D → D → Built H → Type 0
Leaves api handles none d d' (built l) =
    (handles d' ≡ handles d + 1) × (handles (destroy api l d') ≡ handles d)
Leaves api handles none d d' (refused code msg) =
    (handles d' ≡ handles d) × (code ≡ logger_cannot_open)
Leaves api handles (some e) d d' b =
    (handles d' ≡ handles d + 1) × (b ≡ refused logger_cannot_open e)
