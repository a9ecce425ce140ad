-- ===== src/Hlog/Calls.antt =====
-- The calls of src/hlog.c from other files, with the access log, by the locks that the calling thread
-- holds.
use gnuais.Common.{
  ℕ, ◌≡◌, refl, ◌∙◌, Bool, true, false, not, Option, none, some, List, [], ◌∷◌, ◌++◌, ℤ, pos,
  negsuc, if◌then◌else◌, inl, inr, Bool-cases, Option-cases, arith, codes,
}
use gnuais.Hlog.Files.{
  accesslog_lock, Action, wrlock, wrunlock, rdlock, rdunlock, opens, closes, writes, Logs, System,
  is_open, is_told, access_last, perform, stops, cannot_open, Request, log_opening, log_closing,
  message, access_opening, access_closing, access_message, hlog, accesslog_open, accesslog_close,
  accesslog,
}
use gnuais.Hlog.Locks.{
  Hold, free, reading, writing, act, acts, acts-append, Neutral, all_free, GivesBack, gives_back,
  given_back, hlog-Neutral, open_log-GivesBack, close_log-GivesBack,
}

module _ (os : System) where
  -- `hlog` if something went wrong.
  complaint-Neutral :
      (wrong : Bool) (p : ℤ) (s : List ℕ) (g : Logs) (k : Hold)
      → (xs : List Action) × ((if wrong then hlog os p s g else some []) ≡ some xs)
        × Neutral xs (record { log = free; access = k })
  unfolding Neutral acts
  complaint-Neutral true p s g k = hlog-Neutral os p s g k
  complaint-Neutral false p s g k = ([], refl, refl)

  access_opened-Neutral :
      (reopen : Bool) (name : List ℕ) (told : List Action)
      → Neutral told (record { log = free; access = writing })
      → acts
          ((if reopen then [] else wrlock accesslog_lock ∷ [])
            ++ opens name ∷ (told ++ wrunlock accesslog_lock ∷ []))
          (record { log = free; access = if reopen then writing else free })
        ≡ some all_free
  unfolding Neutral acts act
  access_opened-Neutral true name told n = acts-append told (wrunlock accesslog_lock ∷ []) _ _ n
  access_opened-Neutral false name told n = acts-append told (wrunlock accesslog_lock ∷ []) _ _ n

  accesslog_open-GivesBack :
      (logd : List ℕ) (reopen : Bool) (g : Logs)
      → GivesBack
          (record { log = free; access = if reopen then writing else free })
          (accesslog_open os logd reopen g)
  unfolding accesslog_open
  accesslog_open-GivesBack logd reopen g =
      let name = logd ++ codes "/gnuais.access.log" in
      let (told, e, n) =
        complaint-Neutral (not (is_open (os.open_file name))) (pos 2) os.trouble g writing in
      rw e (gives_back _ _ (access_opened-Neutral reopen name told n))

  -- what `accesslog_close` does, whatever it does last
  access_closing-lem :
      (first second told last : List Action) (fd : ℤ)
      → Neutral first all_free
      → Neutral second (record { log = free; access = writing })
      → Neutral told (record { log = free; access = writing })
      → acts last (record { log = free; access = writing }) ≡ some all_free
      → acts (first ++ (wrlock accesslog_lock ∷ (second ++ closes fd ∷ (told ++ last)))) all_free
        ≡ some all_free
  unfolding Neutral acts act
  access_closing-lem first second told last fd n1 n2 n3 e =
      acts-append first _ _ _ n1 ∙ acts-append second _ _ _ n2 ∙ acts-append told last _ _ n3 ∙ e

  access_last-GivesBack :
      (reopenpath : Option (List ℕ)) (g : Logs)
      → GivesBack (record { log = free; access = writing }) (access_last os reopenpath g)
  unfolding access_last acts act
  access_last-GivesBack none g = gives_back _ _ refl
  access_last-GivesBack (some path) g = accesslog_open-GivesBack path true g

  accesslog_close-GivesBack :
      (reopenpath : Option (List ℕ)) (g : Logs)
      → GivesBack all_free (accesslog_close os reopenpath g)
  unfolding accesslog_close
  accesslog_close-GivesBack reopenpath g =
      let (first, e1, n1) = hlog-Neutral os (pos 7) (codes "Closing access log...") g free in
      let (second, e2, n2) =
        hlog-Neutral os (pos 7) (codes "Closing access log, got lock") g writing in
      let (told, e3, n3) =
        complaint-Neutral (os.fails (closes g.accesslog_file)) (pos 2) os.trouble g writing in
      let g' : Logs = record g { accesslog_file = negsuc 0 } in
      let (_, last, e, n) = given_back _ (access_last-GivesBack reopenpath g') in
      rw (e1, e2, e3, e) (gives_back _ _ (access_closing-lem first second told last _ n1 n2 n3 n))

  access_written-lem :
      (xs : List Action)
      → Neutral xs (record { log = free; access = reading })
      → acts (rdlock accesslog_lock ∷ (xs ++ rdunlock accesslog_lock ∷ [])) all_free ≡ some all_free
  unfolding Neutral acts act
  access_written-lem xs n = acts-append xs (rdunlock accesslog_lock ∷ []) _ _ n

  accesslog-GivesBack : (s : List ℕ) (g : Logs) → GivesBack all_free (accesslog os s g)
  unfolding accesslog
  accesslog-GivesBack s g =
      let a = writes g.accesslog_file (os.access_line s) in
      elim (Bool-cases (is_open g.accesslog_file)) [
        | inl writable ↦
            let (told, e, n) = complaint-Neutral (os.fails a) (pos 2) os.trouble g reading in
            let n' : Neutral (a ∷ told) (record { log = free; access = reading }) =
              unfold Neutral acts act in n in
            rw (writable, e) (gives_back _ _ (access_written-lem (a ∷ told) n'))
        | inr shut ↦ elim (Bool-cases (is_told g.accesslog_file)) [
          | inl before ↦
              let n : Neutral [] (record { log = free; access = reading }) =
                unfold Neutral acts in refl in
              rw (shut, before) (gives_back _ _ (access_written-lem [] n))
          | inr first ↦
              let (told, e, n) =
                hlog-Neutral os (pos 3) (codes "Access log not open, log lines are lost!") g
                  reading in
              rw (shut, first, e) (gives_back _ _ (access_written-lem told n))
        ]
      ]

  message-GivesBack :
      (p : ℤ) (s : List ℕ) (g : Logs) → GivesBack all_free (perform os (message p s) g)
  unfolding perform Neutral
  message-GivesBack p s g = let (xs, e, n) = hlog-Neutral os p s g free in rw e (gives_back g xs n)

-- A call that does not stop the program returns, and a thread that enters it with no lock held can
-- do all that it does: no lock is taken while the thread holds it, none is given back that it does
-- not hold, files are opened and closed under a lock held for writing and written under one held
-- for reading, and at the end no lock is held. This includes the messages that the log files print
-- through `hlog` while they hold the other lock, and the reopening of a file, which gives back the
-- lock that the closing took.
pub perform-GivesBack :
    (os : System) (r : Request) (g : Logs)
    → stops os r g ≡ false
    → GivesBack all_free (perform os r g)
unfolding perform stops cannot_open
perform-GivesBack os (log_opening name) g go = open_log-GivesBack os name false g go
perform-GivesBack os (log_closing reopen) g go = elim (Option-cases g.log_name) [
  | inl unnamed ↦ ground (arith, go, unnamed)
  | inr (name, named) ↦ close_log-GivesBack os reopen g name named (rw named at go)
]
perform-GivesBack os (message p s) g go = message-GivesBack os p s g
perform-GivesBack os (access_opening logd) g go = accesslog_open-GivesBack os logd false g
perform-GivesBack os (access_closing reopenpath) g go = accesslog_close-GivesBack os reopenpath g
perform-GivesBack os (access_message s) g go = accesslog-GivesBack os s g
