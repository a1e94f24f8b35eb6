-- ===== src/Downloader/Owner.antt =====
-- Downloader.cpp: what makes a download the user's own, its URL and its user.
use filetransferdaemon.Prelude.{ℕ, ◌≡◌, refl, ◌∙◌, arith}
use filetransferdaemon.Downloader.{Downloader, update_progress, claim, conclude}

pub record Keeps (d d' : Downloader) : Type 0 where
  pub url : d'.url ≡ d.url
  pub user : d'.user ≡ d.user

pub Keeps-refl : (d : Downloader) → Keeps d d
Keeps-refl d = record { url = refl; user = refl }

pub Keeps-trans : {d e f : Downloader} → Keeps d e → Keeps e f → Keeps d f
Keeps-trans k l = record { url = l.url ∙ k.url; user = l.user ∙ k.user }

pub update_progress-Keeps :
    (dltotal dlnow : ℕ) (d : Downloader) → Keeps d (update_progress dltotal dlnow d).0
unfolding update_progress
update_progress-Keeps dltotal dlnow d = ground arith

pub claim-Keeps : (d : Downloader) → Keeps d (claim d).0
unfolding claim
claim-Keeps d = ground arith

pub conclude-Keeps : (d : Downloader) → Keeps d (conclude d)
unfolding conclude
conclude-Keeps d = record { url = refl; user = refl }
