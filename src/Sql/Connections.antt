-- ===== src/Sql/Connections.antt =====
-- How many connections are open.
use bindings.Common.{none, [], ◌-◌, suc, ◌∷◌, ◌+◌, ◌≡◌, ℕ}
use bindings.Sql.{closed, opened, History}
use bindings.Exec.{err, ok, Result}

-- The connections opened with success, less those closed.
abbrev pub live : History → ℕ
live [] = 0
live (opened dsn none ∷ h) = suc (live h)
live (closed answer ∷ h) = live h - 1
live (_ ∷ h) = live h

-- An initialization leaves one connection more, and none more if it fails.
abbrev pub KeepsCount {ℓ} : {A : Type ℓ} → History → Result A × History → Type 0
KeepsCount h (ok _, h') = live h' ≡ live h + 1
KeepsCount h (err _, h') = live h' ≡ live h
