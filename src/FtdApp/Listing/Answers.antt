-- ===== src/FtdApp/Listing/Answers.antt =====
-- FtdApp.cpp: what a listing leaves alone.
use filetransferdaemon.Prelude.{
  ℕ, ◌≡◌, refl, Option, none, some, List, [], ◌∷◌, inl, inr, Bool-cases, All, Text, ◌==◌,
  if◌then◌else◌,
}
use filetransferdaemon.World.{World}
use filetransferdaemon.Object.{Object}
use filetransferdaemon.FtdApp.{FtdApp, send_json_value}
use filetransferdaemon.FtdApp.Listing.{send_at, send_download}

abbrev pub Present : (ℕ → Option Object) → List ℕ → Type 0
Present heap ps = All (λ p. (o : Object) × (heap p ≡ some o)) ps

stored :
    (heap : ℕ → Option Object) (p q : ℕ) (o o' : Object)
    → heap q ≡ some o'
    → (x : Object) × ((if q == p then some o else heap q) ≡ some x)
stored heap p q o o' h = elim (Bool-cases (q == p)) [
  | inl same ↦ (o, rw same refl)
  | inr other ↦ (o', rw other h)
]

send_download-Present :
    (w : World) (user : Text) (p : ℕ) (o : Object) (a : FtdApp) (ps : List ℕ)
    → Present a.heap ps
    → Present (send_download w user p o a).heap ps
unfolding send_download send_json_value
send_download-Present w user p o a [] h = h
send_download-Present w user p o a (q ∷ qs) ((x, e), h) =
    (stored a.heap p q _ x e, send_download-Present w user p o a qs h)

pub send_at-Present :
    (w : World) (user : Text) (p : ℕ) (x : Option Object) (a : FtdApp) (ps : List ℕ)
    → Present a.heap ps
    → Present (send_at w user p x a).heap ps
unfolding send_at
send_at-Present w user p none a ps h = h
send_at-Present w user p (some o) a ps h = send_download-Present w user p o a ps h
