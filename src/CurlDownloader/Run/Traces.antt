-- ===== src/CurlDownloader/Run/Traces.antt =====
-- What a list of effects removed and whom it told.
use filetransferdaemon.Prelude.{ℕ, ◌≡◌, refl, List, [], ◌∷◌, ◌++◌, map, Text, arith}
use filetransferdaemon.Downloader.{Slot}
use filetransferdaemon.Platform.{Effect, unlink, emit}
use filetransferdaemon.CurlDownloader.Run.{calls_of}

-- The files that were removed, in order.
abbrev pub unlinked : List Effect → List Text
unlinked [] = []
unlinked (unlink p ∷ es) = p ∷ unlinked es
unlinked (_ ∷ es) = unlinked es

-- The slots that were told, in order.
abbrev pub emitted : List Effect → List Slot
emitted [] = []
emitted (emit s ∷ es) = s ∷ emitted es
emitted (_ ∷ es) = emitted es

pub unlinked-append : (xs ys : List Effect) → unlinked (xs ++ ys) ≡ unlinked xs ++ unlinked ys
unlinked-append [] ys = refl
unlinked-append (unlink p ∷ xs) ys = ground (arith, unlinked-append xs ys)
unlinked-append (_ ∷ xs) ys = unlinked-append xs ys

pub emitted-append : (xs ys : List Effect) → emitted (xs ++ ys) ≡ emitted xs ++ emitted ys
emitted-append [] ys = refl
emitted-append (emit s ∷ xs) ys = ground (arith, emitted-append xs ys)
emitted-append (_ ∷ xs) ys = emitted-append xs ys

pub unlinked-map-emit : (ss : List Slot) → unlinked (map emit ss) ≡ []
unlinked-map-emit [] = refl
unlinked-map-emit (s ∷ ss) = unlinked-map-emit ss

pub emitted-map-emit : (ss : List Slot) → emitted (map emit ss) ≡ ss
emitted-map-emit [] = refl
emitted-map-emit (s ∷ ss) = ground (arith, emitted-map-emit ss)

pub unlinked-calls_of : (cs : List (ℕ × ℕ)) → unlinked (calls_of cs) ≡ []
unfolding calls_of
unlinked-calls_of [] = refl
unlinked-calls_of ((cb, payload) ∷ cs) = unlinked-calls_of cs
