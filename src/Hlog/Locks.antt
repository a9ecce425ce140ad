-- ===== src/Hlog/Locks.antt =====
-- The locks of src/hlog.c as the calling thread holds them, with `hlog`, `open_log` and `close_log`.
use gnuais.Common.{
  ℕ, ◌≡◌, refl, Bool, true, false, ◌&&◌, ◌||◌, Option, none, some, List, [], ◌∷◌, ◌++◌, ℤ, pos,
  negsuc, ltb, ◌==◌, if◌then◌else◌, ◌>>=◌, inl, inr, Bool-cases, Option-cases, arith, ◌≤◌,
  get_elem?-eq-get_or, get_or, codes, length, ◌<◌,
}
use gnuais.Hlog.{log_levelnames}
use gnuais.Hlog.Files.{
  Lock, log_file_lock, accesslog_lock, Action, wrlock, wrunlock, rdlock, rdunlock, opens, closes,
  writes, to_stderr, open_syslog, to_syslog, close_syslog, Logs, System, l_syslog, l_file, clamped,
  is_open, cannot_open, tried, name_of, logged, hlog, open_log, close_log,
}

-- How the calling thread holds a lock.
pub data Hold : Type 0 where
  free reading writing : Hold

pub record Held : Type 0 where
  pub log : Hold
  pub access : Hold

abbrev is_free : Hold → Bool
is_free free = true
is_free _ = false

abbrev is_reading : Hold → Bool
is_reading reading = true
is_reading _ = false

abbrev is_writing : Hold → Bool
is_writing writing = true
is_writing _ = false

abbrev hold_of : Lock → Held → Hold
hold_of log_file_lock h = h.log
hold_of accesslog_lock h = h.access

abbrev put : Lock → Hold → Held → Held
put log_file_lock k h = record h { log = k }
put accesslog_lock k h = record h { access = k }

-- One action of a thread that holds locks: it takes only a lock that it does not hold and gives
-- back what it holds; files are opened and closed under a lock held for writing, and written
-- under one held for reading.
unfoldable pub act : Action → Held → Option Held
act (wrlock l) h = if is_free (hold_of l h) then some (put l writing h) else none
act (rdlock l) h = if is_free (hold_of l h) then some (put l reading h) else none
act (wrunlock l) h = if is_writing (hold_of l h) then some (put l free h) else none
act (rdunlock l) h = if is_reading (hold_of l h) then some (put l free h) else none
act (opens name) h = if is_writing h.log || is_writing h.access then some h else none
act (closes fd) h = if is_writing h.log || is_writing h.access then some h else none
act (writes fd text) h = if is_reading h.log || is_reading h.access then some h else none
act (to_stderr text) h = some h
act (open_syslog name) h = some h
act (to_syslog p text) h = some h
act close_syslog h = some h

unfoldable pub acts : List Action → Held → Option Held
unfolding act
acts [] h = some h
acts (a ∷ xs) h = do h' ← act a h; acts xs h'

pub acts-append :
    (xs ys : List Action) (h h' : Held) → acts xs h ≡ some h' → acts (xs ++ ys) h ≡ acts ys h'
unfolding acts
acts-append [] ys h h' e = ground (arith, e)
acts-append (x ∷ xs) ys h h' e = elim (Option-cases (act x h)) [
  | inl refused ↦ ground (arith, refused)
  | inr (next, done) ↦ rw done (acts-append xs ys next h' (rw done at e))
]

clamped-le : (p : ℤ) → clamped p ≤ 7
unfolding clamped
clamped-le (pos n) = ground arith
clamped-le (negsuc n) = ground arith

-- Actions that leave the locks as they are held.
unfoldable pub Neutral : List Action → Held → Type 0
Neutral xs h = acts xs h ≡ some h

abbrev pub all_free : Held
all_free = record { log = free; access = free }

-- A function that returns has given back all locks.
pub data GivesBack (h : Held) : Option (Logs × List Action) → Type 0 where
  gives_back :
      (g : Logs) (xs : List Action) → acts xs h ≡ some all_free → GivesBack h (some (g, xs))

pub given_back :
    {h : Held} (r : Option (Logs × List Action))
    → GivesBack h r
    → (g : Logs) × (xs : List Action) × (r ≡ some (g, xs)) × (acts xs h ≡ some all_free)
given_back _ (gives_back g xs e) = (g, xs, refl, e)

module _ (os : System) where
  logged-Neutral :
      (p : ℕ) (s text : List ℕ) (g : Logs) (k : Hold)
      → Neutral (logged os p s text g) (record { log = free; access = k })
  unfolding Neutral logged acts act
  logged-Neutral p s text g k = ground arith

  -- `hlog` finds a name for every priority; any hold on the access log is kept.
  pub hlog-Neutral :
      (p : ℤ) (s : List ℕ) (g : Logs) (k : Hold)
      → (xs : List Action) × (hlog os p s g ≡ some xs)
        × Neutral xs (record { log = free; access = k })
  unfolding hlog Neutral acts
  hlog-Neutral p s g k =
      let small : clamped p < length log_levelnames =
        unfold log_levelnames in omega (arith, clamped-le p) in
      let level = get_elem?-eq-get_or log_levelnames (clamped p) [] small in
      elim (Bool-cases (ltb g.log_level (clamped p))) [
        | inl quiet ↦ ([], rw quiet refl, refl)
        | inr loud ↦
            let shown = get_or log_levelnames (clamped p) [] in
            let tagged : List ℕ = shown ++ codes ": " ++ s in
            let text : List ℕ = os.line (name_of g.log_name) shown s in
            (
              logged os (clamped p) tagged text g,
              rw (loud, level) refl,
              logged-Neutral (clamped p) tagged text g k,
            )
      ]

  -- `open_log` takes the lock unless it reopens.
  unlocked-Neutral :
      (reopen : Bool) (told : List Action)
      → Neutral told all_free
      → acts
          ((if reopen then [] else wrlock log_file_lock ∷ []) ++ wrunlock log_file_lock ∷ told)
          (record { log = if reopen then writing else free; access = free })
        ≡ some all_free
  unfolding Neutral acts act
  unlocked-Neutral true told n = n
  unlocked-Neutral false told n = n

  opened-Neutral :
      (reopen : Bool) (name : List ℕ) (told : List Action)
      → Neutral told all_free
      → acts
          ((if reopen then [] else wrlock log_file_lock ∷ [])
            ++ opens name ∷ wrunlock log_file_lock ∷ told)
          (record { log = if reopen then writing else free; access = free })
        ≡ some all_free
  unfolding Neutral acts act
  opened-Neutral true name told n = n
  opened-Neutral false name told n = n

  asked-Neutral :
      (reopen : Bool) (name : List ℕ) (told : List Action)
      → Neutral told all_free
      → acts
          ((if reopen then [] else wrlock log_file_lock ∷ [])
            ++ open_syslog name ∷ wrunlock log_file_lock ∷ told)
          (record { log = if reopen then writing else free; access = free })
        ≡ some all_free
  unfolding Neutral acts act
  asked-Neutral true name told n = n
  asked-Neutral false name told n = n

  pub open_log-GivesBack :
      (name : List ℕ) (reopen : Bool) (g : Logs)
      → cannot_open os g ≡ false
      → GivesBack
          (record { log = if reopen then writing else free; access = free })
          (open_log os name reopen g)
  unfolding open_log cannot_open
  open_log-GivesBack name reopen g can =
      let fname = g.log_dir ++ codes "/gnuais.log" in
      let fd = os.open_file fname in
      elim (Bool-cases (g.log_dest == l_file)) [
        | inl file ↦
            let opened : is_open fd ≡ true = ground (arith, can, file) in
            let g' : Logs = record g { log_name = some name; log_file = fd } in
            let (told, e, n) = hlog-Neutral (pos 7) (os.file_text fname reopen fd) g' free in
            let other : (g.log_dest == l_syslog) ≡ false = ground (arith, file) in
            rw (file, opened, other, e) (gives_back _ _ (opened-Neutral reopen fname told n))
        | inr other ↦ elim (Bool-cases (g.log_dest == l_syslog)) [
          | inl system ↦
              rw (other, system)
                (gives_back _ _ (asked-Neutral reopen name [] (unfold Neutral acts in refl)))
          | inr plain ↦
              rw (other, plain)
                (gives_back _ _ (unlocked-Neutral reopen [] (unfold Neutral acts in refl)))
        ]
      ]

  -- what `close_log` does before it reopens
  closing-lem :
      (g : Logs) (last : List Action)
      → acts last (record { log = writing; access = free }) ≡ some all_free
      → acts
          (wrlock log_file_lock
            ∷ ((if g.log_dest == l_syslog
                  then close_syslog ∷ []
                  else if g.log_dest == l_file
                  then tried os (closes g.log_file) (to_stderr os.trouble ∷ [])
                  else [])
                ++ last))
          all_free
        ≡ some all_free
  unfolding acts act
  closing-lem g last e = ground (arith, e)

  pub close_log-GivesBack :
      (reopen : Bool) (g : Logs) (name : List ℕ)
      → g.log_name ≡ some name
      → (reopen && cannot_open os g) ≡ false
      → GivesBack all_free (close_log os reopen g)
  unfolding close_log cannot_open
  close_log-GivesBack false g name named can =
      let back : acts (wrunlock log_file_lock ∷ []) (record { log = writing; access = free })
          ≡ some all_free =
        unfold acts act in refl in
      rw named (gives_back _ _ (closing-lem g _ back))
  close_log-GivesBack true g name named can =
      let g' : Logs = record g {
        log_name = none;
        log_file = if g.log_dest == l_file then negsuc 0 else g.log_file;
      } in
      let (_, last, e, n) = given_back _ (open_log-GivesBack name true g' can) in
      rw (named, e) (gives_back _ _ (closing-lem g last n))
