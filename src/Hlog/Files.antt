-- ===== src/Hlog/Files.antt =====
-- The log files of src/hlog.c: what each function does to its two locks and to the outside, in order.
use gnuais.Common.{
  ℕ, Bool, true, false, Option, none, some, List, [], ◌∷◌, ◌++◌, ℤ, pos, negsuc, not, ◌&&◌, ◌||◌,
  ltb, ◌==◌, if◌then◌else◌, ◌>>=◌, get_elem?, codes,
}
use gnuais.Hlog.{log_levelnames}

-- The lock of the log and the lock of the access log.
pub data Lock : Type 0 where
  log_file_lock accesslog_lock : Lock

-- What a function does.
pub data Action : Type 0 where
  wrlock wrunlock rdlock rdunlock : Lock → Action
  opens : (name : List ℕ) → Action
  closes : (fd : ℤ) → Action
  writes : (fd : ℤ) (text : List ℕ) → Action
  to_stderr : (text : List ℕ) → Action
  open_syslog : (name : List ℕ) → Action
  to_syslog : (priority : ℕ) (text : List ℕ) → Action
  close_syslog : Action

-- The variables of the file.
pub record Logs : Type 0 where
  pub log_dest : ℕ
  pub log_level : ℕ
  pub log_name : Option (List ℕ)
  pub log_dir : List ℕ
  pub log_file : ℤ
  pub accesslog_file : ℤ

-- What the operating system answers, and the texts that are printed from the time, the process and
-- the message while they fit the buffers.
pub record System : Type 0 where
  pub open_file : List ℕ → ℤ
  pub fails : Action → Bool
  pub line : (log_name level message : List ℕ) → List ℕ
  pub access_line : (message : List ℕ) → List ℕ
  pub file_text : (fname : List ℕ) (reopen : Bool) (fd : ℤ) → List ℕ
  pub trouble : List ℕ

abbrev pub l_stderr : ℕ
l_stderr = 1

abbrev pub l_syslog : ℕ
l_syslog = 2

abbrev pub l_file : ℕ
l_file = 3

-- The priority as an index of the names.
unfoldable pub clamped : ℤ → ℕ
clamped (pos n) = if ltb 7 n then 7 else n
clamped (negsuc n) = 0

abbrev pub is_open : ℤ → Bool
is_open (pos n) = true
is_open (negsuc n) = false

-- `(log_name) ? log_name : "gnuais"`
abbrev pub name_of : Option (List ℕ) → List ℕ
name_of none = codes "gnuais"
name_of (some name) = name

-- -666, which stands for a log that is not open after that has been told.
abbrev told_mark : ℤ
told_mark = negsuc 665

abbrev pub is_told : ℤ → Bool
is_told (pos n) = false
is_told (negsuc n) = n == 665

module _ (os : System) where
  -- A call of the system, with what is printed if it fails.
  abbrev pub tried : Action → List Action → List Action
  tried a complaint = a ∷ (if os.fails a then complaint else [])

  -- The line goes to the destination.
  unfoldable pub logged : (p : ℕ) (s text : List ℕ) → Logs → List Action
  logged p s text g =
      if g.log_dest == l_stderr
      then rdlock log_file_lock ∷ to_stderr text ∷ rdunlock log_file_lock ∷ []
      else if g.log_dest == l_file
      then (if is_open g.log_file
          then rdlock log_file_lock
            ∷ (tried (writes g.log_file text) (to_stderr os.trouble ∷ [])
                ++ rdunlock log_file_lock ∷ [])
          else [])
      else if g.log_dest == l_syslog
      then rdlock log_file_lock ∷ to_syslog p s ∷ rdunlock log_file_lock ∷ []
      else []

  -- `hlog`, with the formatted message; `none` is a read behind the names of the levels.
  unfoldable pub hlog : (priority : ℤ) (s : List ℕ) → Logs → Option (List Action)
  hlog priority s g =
      let p = clamped priority in
      let shown : Option (List Action) = (do
        level ← get_elem? log_levelnames p
        some (logged p (level ++ codes ": " ++ s) (os.line (name_of g.log_name) level s) g)) in
      if ltb g.log_level p then some [] else shown

  -- `open_log`; `none` is also exit(1).
  unfoldable pub open_log : (name : List ℕ) (reopen : Bool) → Logs → Option (Logs × List Action)
  open_log name reopen g =
      let fname = g.log_dir ++ codes "/gnuais.log" in
      let fd = os.open_file fname in
      let to_file = g.log_dest == l_file in
      let g' : Logs = record g {
        log_name = some name;
        log_file = if to_file then fd else g.log_file;
      } in
      let front = if reopen then [] else wrlock log_file_lock ∷ [] in
      let middle =
        if g.log_dest == l_syslog
        then open_syslog name ∷ []
        else if to_file
        then opens fname ∷ []
        else [] in
      let opened : Option (Logs × List Action) = (do
        told ← (if to_file then hlog (pos 7) (os.file_text fname reopen fd) g' else some [])
        some (g', front ++ (middle ++ wrunlock log_file_lock ∷ told))) in
      if to_file then (if is_open fd then opened else none) else opened

  -- `close_log`; `none` is also the copy of a name that is not there.
  unfoldable pub close_log : (reopen : Bool) → Logs → Option (Logs × List Action)
  close_log reopen g =
      let to_file = g.log_dest == l_file in
      let g' : Logs = record g {
        log_name = none;
        log_file = if to_file then negsuc 0 else g.log_file;
      } in
      let middle =
        if g.log_dest == l_syslog
        then close_syslog ∷ []
        else if to_file
        then tried (closes g.log_file) (to_stderr os.trouble ∷ [])
        else [] in
      do
        name ← g.log_name
        (g'', last) ←
            (if reopen then open_log name true g' else some (g', wrunlock log_file_lock ∷ []))
        some (g'', wrlock log_file_lock ∷ (middle ++ last))

  -- `accesslog_open`
  unfoldable pub accesslog_open :
      (logd : List ℕ) (reopen : Bool) → Logs → Option (Logs × List Action)
  accesslog_open logd reopen g =
      let fname = logd ++ codes "/gnuais.access.log" in
      let fd = os.open_file fname in
      let front = if reopen then [] else wrlock accesslog_lock ∷ [] in
      do
        told ← (if not (is_open fd) then hlog (pos 2) os.trouble g else some [])
        some (
          record g { accesslog_file = fd },
          front ++ (opens fname ∷ (told ++ wrunlock accesslog_lock ∷ [])),
        )

  -- The end of `accesslog_close`.
  unfoldable pub access_last : (reopenpath : Option (List ℕ)) → Logs → Option (Logs × List Action)
  access_last (some path) g = accesslog_open path true g
  access_last none g = some (g, wrunlock accesslog_lock ∷ [])

  -- `accesslog_close`, with the path to reopen.
  unfoldable pub accesslog_close :
      (reopenpath : Option (List ℕ)) → Logs → Option (Logs × List Action)
  accesslog_close reopenpath g = do
    first ← hlog (pos 7) (codes "Closing access log...") g
    second ← hlog (pos 7) (codes "Closing access log, got lock") g
    told ← (if os.fails (closes g.accesslog_file) then hlog (pos 2) os.trouble g else some [])
    (g'', last) ← access_last reopenpath (record g { accesslog_file = negsuc 0 })
    some (
      g'',
      first ++ (wrlock accesslog_lock ∷ (second ++ closes g.accesslog_file ∷ (told ++ last))),
    )

  -- `accesslog`, with the formatted message.
  unfoldable pub accesslog : (s : List ℕ) → Logs → Option (Logs × List Action)
  accesslog s g =
      let a = writes g.accesslog_file (os.access_line s) in
      let middle : Option (Logs × List Action) =
        (if is_open g.accesslog_file
          then (do
            told ← (if os.fails a then hlog (pos 2) os.trouble g else some [])
            some (g, a ∷ told))
          else if is_told g.accesslog_file
          then some (g, [])
          else (do
            told ← hlog (pos 3) (codes "Access log not open, log lines are lost!") g
            some (record g { accesslog_file = told_mark }, told))) in
      do
        (g', actions) ← middle
        some (g', rdlock accesslog_lock ∷ (actions ++ rdunlock accesslog_lock ∷ []))

-- A call from another file.
pub data Request : Type 0 where
  log_opening : (name : List ℕ) → Request
  log_closing : (reopen : Bool) → Request
  message : (priority : ℤ) (text : List ℕ) → Request
  access_opening : (logd : List ℕ) → Request
  access_closing : (reopenpath : Option (List ℕ)) → Request
  access_message : (text : List ℕ) → Request

unfoldable pub perform : System → Request → Logs → Option (Logs × List Action)
perform os (log_opening name) g = open_log os name false g
perform os (log_closing reopen) g = close_log os reopen g
perform os (message p s) g = do xs ← hlog os p s g; some (g, xs)
perform os (access_opening logd) g = accesslog_open os logd false g
perform os (access_closing reopenpath) g = accesslog_close os reopenpath g
perform os (access_message s) g = accesslog os s g

-- The log file can not be opened, after which `open_log` calls exit(1).
unfoldable pub cannot_open : System → Logs → Bool
cannot_open os g =
    g.log_dest == l_file && not (is_open (os.open_file (g.log_dir ++ codes "/gnuais.log")))

abbrev pub is_unnamed : Option (List ℕ) → Bool
is_unnamed none = true
is_unnamed (some name) = false

-- The calls that do not return.
unfoldable pub stops : System → Request → Logs → Bool
stops os (log_opening name) g = cannot_open os g
stops os (log_closing reopen) g = is_unnamed g.log_name || (reopen && cannot_open os g)
stops _ _ _ = false
