-- ===== src/Daemon/Shutdown.antt =====
-- filetransferdaemon.cpp, main: the loop from the first request to the shutdown.
use filetransferdaemon.Prelude.{
  ℕ, ◌≡◌, refl, Bool, true, false, Option, none, List, [], ◌∷◌, ◌++◌, Text, Table, lookup, arith,
  Bool-cases, Option-cases, inl, inr, if◌then◌else◌, All,
}
use filetransferdaemon.World.{World}
use filetransferdaemon.Object.{Object, base}
use filetransferdaemon.FtdApp.{FtdApp, downloads, add_filter}
use filetransferdaemon.FtdApp.Heap.{IsValid, is_in}
use filetransferdaemon.FtdApp.Stopping.{shut_down}
use filetransferdaemon.FtdApp.Stopping.Deletion.{AllGone, shut_down-AllGone, stop_all-none}
use filetransferdaemon.Daemon.{
  Daemon, Arrival, Round, done, dies, hangs, endless, overflows, serve, loop, go_on, stop, main,
  add_filters,
}
use filetransferdaemon.Daemon.Turns.{round, Reach, start, turn, IsNew, ArePlain, IsPlainArrival}
use filetransferdaemon.Daemon.Turns.Agreement.{reach-IsValid}

-- No object on the heap and no entry in the table.
abbrev pub IsEmpty : FtdApp → Type 0
IsEmpty a = ((p : ℕ) → a.heap p ≡ none) × (a.transfers ≡ [])

list_gone :
    (heap : ℕ → Option Object) (ps : List ℕ) (p : ℕ)
    → All (λ q. heap q ≡ none) ps
    → is_in p ps ≡ true
    → heap p ≡ none
list_gone heap [] p h i = absurd (cc)
list_gone heap (q ∷ qs) p (h, hs) i = ground (arith, list_gone heap qs p hs)

table_gone :
    (heap : ℕ → Option Object) (m : Table (List ℕ)) (u : Text) (p : ℕ)
    → AllGone heap m
    → is_in p (downloads u m) ≡ true
    → heap p ≡ none
unfolding downloads lookup
table_gone heap [] u p h i = absurd (cc)
table_gone heap ((user, ps) ∷ m) u p (h, hs) i =
    ground (arith, list_gone heap ps p h, table_gone heap m u p hs)

shut_down-none :
    (w : World) (settled : ℕ → Object → Object) (p : ℕ) (a : FtdApp)
    → a.heap p ≡ none
    → (shut_down w settled a).heap p ≡ none
unfolding shut_down
shut_down-none w settled p a h = stop_all-none w settled a.transfers p a h

shut_down-empty :
    (name : ℕ → Text) (w : World) (settled : ℕ → Object → Object) (a : FtdApp)
    → IsValid name a
    → (p : ℕ) → (shut_down w settled a).heap p ≡ none
shut_down-empty name w settled a v p = elim (Option-cases (a.heap p)) [
  | inl e ↦ shut_down-none w settled p a e
  | inr (o, e) ↦
      table_gone (shut_down w settled a).heap a.transfers (name (base o).user) p
        (shut_down-AllGone w settled a).0 (v.listed p o e)
]

-- Whatever plain turns have come one after another, from a daemon without downloads, and whatever the
-- threads leave behind once their downloads may be reaped: ShutDown then leaves no download, listed
-- or not, and an empty table.
pub shutdown_leaves_nothing :
    (name : ℕ → Text) {first d : Daemon} (r : Reach first d)
    → IsNew first
    → ArePlain name r
    → (w : World) (settled : ℕ → Object → Object) → IsEmpty (shut_down w settled d.app)
shutdown_leaves_nothing name {d} r n plain w settled = (
  shut_down-empty name w settled d.app (reach-IsValid name r n plain),
  (shut_down-AllGone w settled d.app).1,
)

-- The request of a round is plain, and `name` is UIDToUser in it.
abbrev pub IsPlainRound : (ℕ → Text) → World × Arrival → Type 0
IsPlainRound name (w, x) = (w.uid_to_user ≡ name) × IsPlainArrival w x

still_open : (b : Bool) (r : Round) → go_on b r ≡ true → b ≡ false
unfolding go_on
still_open true done h = cc
still_open true (dies e) h = cc
still_open true hangs h = cc
still_open true endless h = cc
still_open true overflows h = cc
still_open false r h = refl

-- Whether the loop goes on after a round.
abbrev pub goes_on : Daemon × Round → Bool
goes_on (d, r) = go_on d.do_shutdown r

-- The loop on some arrivals and then on others is the loop on the first and, if it has not ended by
-- then, on the others: what comes after a shutdown or after a round that does not end is never served.
pub loop-append :
    (fuel : ℕ) (xs ys : List (World × Arrival)) (d : Daemon)
    → d.do_shutdown ≡ false
    → loop fuel (xs ++ ys) d
      ≡ (if goes_on (loop fuel xs d) then loop fuel ys (loop fuel xs d).0 else loop fuel xs d)
unfolding loop
loop-append fuel [] ys d h = rw h (unfold go_on in refl)
loop-append fuel ((w, x) ∷ xs) ys d h =
    let (d', r) = serve w fuel x d in
    elim (Bool-cases (go_on d'.do_shutdown r)) [
      | inl more ↦ rw (more, loop) (loop-append fuel xs ys d' (still_open d'.do_shutdown r more))
      | inr ended ↦ rw (ended, loop, ended) refl
    ]

arrivals-Reach :
    (name : ℕ → Text) {first : Daemon} (fuel : ℕ) (xs : List (World × Arrival)) (d : Daemon)
    (r : Reach first d)
    → ArePlain name r
    → All (IsPlainRound name) xs
    → (q : Reach first (loop fuel xs d).0) × ArePlain name q
unfolding loop
arrivals-Reach name fuel [] d r p hs = (r, p)
arrivals-Reach name fuel ((w, x) ∷ xs) d r p (h, hs) =
    let d' = (serve w fuel x d).0 in
    elim (Bool-cases (go_on d'.do_shutdown (serve w fuel x d).1)) [
      | inl more ↦
          rw (more, loop) (arrivals-Reach name fuel xs d' (turn r (round w fuel x)) (p, h) hs)
      | inr ended ↦ rw (ended, loop) (turn r (round w fuel x), (p, h))
    ]

stop-IsEmpty :
    (name : ℕ → Text) (w : World) (settled : ℕ → Object → Object) (d : Daemon) (r : Round)
    → IsValid name d.app
    → (stop w settled (d, r)).1 ≡ done
    → (stop w settled (d, r)).0.do_shutdown ≡ true
    → IsEmpty (stop w settled (d, r)).0.app
unfolding stop
stop-IsEmpty name w settled d done v e h = elim (Bool-cases d.do_shutdown) [
  | inl down ↦
      rw down (shut_down-empty name w settled d.app v, (shut_down-AllGone w settled d.app).1)
  | inr up ↦ absurd (ground (arith, up))
]
stop-IsEmpty name w settled d (dies err) v e h = absurd (cc)
stop-IsEmpty name w settled d hangs v e h = absurd (cc)
stop-IsEmpty name w settled d endless v e h = absurd (cc)
stop-IsEmpty name w settled d overflows v e h = absurd (cc)

-- main on plain requests and signals, from a daemon without downloads: if it comes to its end by a
-- shutdown, no download is left.
pub main_leaves_nothing :
    (name : ℕ → Text) (w : World) (settled : ℕ → Object → Object) (fuel : ℕ)
    (xs : List (World × Arrival)) (a : FtdApp)
    → IsEmpty a
    → All (IsPlainRound name) xs
    → (main w settled fuel xs a).1 ≡ done
    → (main w settled fuel xs a).0.do_shutdown ≡ true
    → IsEmpty (main w settled fuel xs a).0.app
unfolding main add_filters add_filter
main_leaves_nothing name w settled fuel xs a (empty, none_yet) plain ended down =
    let first : Daemon = record { app = add_filters a; do_shutdown = false } in
    let (r, p) = arrivals-Reach name {first = first} fuel xs first start tt plain in
    stop-IsEmpty name w settled (loop fuel xs first).0 (loop fuel xs first).1
      (reach-IsValid name r (none_yet, empty) p) ended down
