-- ===== src/Netutil/Entries/Found.antt =====
-- Where the entries of `BuildUserEntries` come from.
use shawk.Prelude.{
  ◌≡◌, ◌∙◌, ◌∷◌, ◌==◌, if◌then◌else◌, ◌>>=◌, Bool-cases, Among, Outcome, ok, err, panics, Text,
  nat_eq, ℕ, refl, sym, ap, inl, inr, Bool, true, false, Option, none, some, List, [],
  text_equality,
}
use mathlib.Core.Path.{subst}
use shawk.Prelude.Map.{insert, lookup, lookup-insert}
use shawk.Strconv.{atoi}
use shawk.Netutil.{UserEnt, UserEnts, parse_socket_inode, binary_to_string}
use shawk.Netutil.Stat.{ProcStat, parse_proc_stat}
use shawk.Netutil.Entries.{
  Readlink, target, no_entry, link_failed, FdRead, fd_entry, fd_read_failed, FdDir, stat_failed,
  not_a_directory, access_denied, open_failed, opened, ProcEntry, ProcRead, proc_entry,
  proc_read_failed, cached_stat, user_ent, add_socket, add_link, add_fd, add_fds, add_fd_dir,
  add_process, add_processes, build_user_entries,
}

-- What holds of a value that is returned.
abbrev Holds : {A : Type 0} → (A → Type 0) → Outcome A → Type 0
Holds P (ok a) = P a
Holds P (err e) = Unit
Holds P panics = Unit

Holds-bind :
    {A B : Type 0} (P : A → Type 0) (Q : B → Type 0) (o : Outcome A) (f : A → Outcome B)
    → Holds P o
    → ((a : A) → o ≡ ok a → P a → Holds Q (f a))
    → Holds Q (o >>= f)
Holds-bind P Q (ok a) f h k = k a refl h
Holds-bind P Q (err e) f h k = tt
Holds-bind P Q panics f h k = tt

abbrev AllEnts : (ℕ → UserEnt → Type 0) → UserEnts → Type 0
AllEnts P ents = (ino : ℕ) (ent : UserEnt) → lookup ino ents ≡ some ent → P ino ent

Holds-of_eq : {A : Type 0} (o : Outcome A) (P : A → Type 0) → ((a : A) → o ≡ ok a → P a) → Holds P o
Holds-of_eq (ok a) P h = h a refl
Holds-of_eq (err e) P h = tt
Holds-of_eq panics P h = tt

Holds-trivially : {A : Type 0} (o : Outcome A) → Holds (λ a. Unit {0}) o
Holds-trivially o = Holds-of_eq o _ (λ a e. tt)

insert-AllEnts :
    (P : ℕ → UserEnt → Type 0) (k : ℕ) (v : UserEnt) (ents : UserEnts)
    → P k v
    → AllEnts P ents
    → AllEnts P (insert k v ents)
insert-AllEnts P k v ents new old ino ent e = elim (Bool-cases (k == ino)) [
  | inl same ↦
      let here : some v ≡ some ent = rw (lookup-insert k ino v ents, same) at e in
      let entries : v ≡ ent = cc in
      subst (λ (j : ℕ). P j ent) ((nat_eq.beq_iff k ino).0 same) (subst (P k) entries new)
  | inr other ↦ old ino ent (rw (lookup-insert k ino v ents, other) at e)
]

-- A link of the process, read among `reads`, is a socket of the inode, and the entry holds the
-- number of the descriptor and what the stat file of the process says.
pub record OwnsSocket (stats : ℕ → Option Text) (reads : List FdRead) (ino : ℕ) (ent : UserEnt)
    : Type 0 where
  pub fd_name : List ℕ
  pub link : Text
  pub stat : ProcStat
  pub read : Among (fd_entry fd_name (target link)) reads
  pub number : atoi (binary_to_string fd_name) ≡ (ent.fd, true)
  pub socket : parse_socket_inode link ≡ ok ino
  pub nonzero : (ino == 0) ≡ false
  pub stat_file : parse_proc_stat (stats ent.pid) ≡ ok stat
  pub entry : ent ≡ user_ent stats ino ent.fd ent.pid stat

-- A process of /proc other than `self` owns the socket.
pub record ComesFromProc (stats : ℕ → Option Text) (self : ℕ) (reads : List ProcRead) (ino : ℕ)
    (ent : UserEnt) : Type 0 where
  pub process : ProcEntry
  pub fds : List FdRead
  pub read : Among (proc_entry process) reads
  pub directory : process.is_directory ≡ true
  pub number : atoi (binary_to_string process.name) ≡ (ent.pid, true)
  pub not_self : (ent.pid == self) ≡ false
  pub fd_dir : process.fd_dir ≡ opened fds
  pub owns : OwnsSocket stats fds ino ent

nothing : (k : ℕ) (v : UserEnt) → lookup k [] ≡ some v → ⊥
unfolding lookup
nothing k v e = cc

module _ (stats : ℕ → Option Text) (P : ℕ → UserEnt → Type 0) where
  -- The stat that is kept is the file's.
  abbrev Cached : ℕ → Option ProcStat → Type 0
  Cached pid none = Unit
  Cached pid (some st) = parse_proc_stat (stats pid) ≡ ok st

  abbrev Good : ℕ → Option ProcStat × UserEnts → Type 0
  Good pid (stat, ents) = Cached pid stat × AllEnts P ents

  cached_stat-Holds :
      (pid : ℕ) (stat : Option ProcStat)
      → Cached pid stat
      → (st : ProcStat) → cached_stat stats pid stat ≡ ok st
      → parse_proc_stat (stats pid) ≡ ok st
  unfolding cached_stat
  cached_stat-Holds pid none c st e = e
  cached_stat-Holds pid (some kept) c st e = c ∙ e

  add_socket-Holds :
      (pid fd : ℕ) (stat : Option ProcStat) (ents : UserEnts) (ino : ℕ)
      → Good pid (stat, ents)
      → ((st : ProcStat)
          → (ino == 0) ≡ false
          → parse_proc_stat (stats pid) ≡ ok st
          → P ino (user_ent stats ino fd pid st))
      → Holds (Good pid) (add_socket stats pid fd stat ents ino)
  unfolding add_socket
  add_socket-Holds pid fd stat ents ino (c, a) k = elim (Bool-cases (ino == 0)) [
    | inl is_zero ↦ rw (is_zero, add_socket) (c, a)
    | inr other ↦
        rw (other, add_socket)
          (Holds-bind (λ st. parse_proc_stat (stats pid) ≡ ok st) (Good pid)
            (cached_stat stats pid stat) _
            (Holds-of_eq (cached_stat stats pid stat) _ (cached_stat-Holds pid stat c))
            λ st e h.
              (h, insert-AllEnts P ino (user_ent stats ino fd pid st) ents (k st other h) a))
  ]

  add_link-Holds :
      (pid fd : ℕ) (stat : Option ProcStat) (ents : UserEnts) (link : Readlink)
      → Good pid (stat, ents)
      → ((lnk : Text) (ino : ℕ) (st : ProcStat)
          → link ≡ target lnk
          → parse_socket_inode lnk ≡ ok ino
          → (ino == 0) ≡ false
          → parse_proc_stat (stats pid) ≡ ok st
          → P ino (user_ent stats ino fd pid st))
      → Holds (Good pid) (add_link stats pid fd stat ents link)
  unfolding add_link
  add_link-Holds pid fd stat ents (target lnk) g k =
      Holds-bind (λ ino. Unit) (Good pid) (parse_socket_inode lnk) _
        (Holds-trivially (parse_socket_inode lnk))
        λ ino e h. add_socket-Holds pid fd stat ents ino g (λ st. k lnk ino st refl e)
  add_link-Holds pid fd stat ents no_entry g k = g
  add_link-Holds pid fd stat ents link_failed g k = tt

  add_fds-Holds :
      (pid : ℕ) (stat : Option ProcStat) (ents : UserEnts) (reads : List FdRead)
      → Good pid (stat, ents)
      → ((ino : ℕ) (ent : UserEnt) → ent.pid ≡ pid → OwnsSocket stats reads ino ent → P ino ent)
      → Holds (AllEnts P) (add_fds stats pid stat ents reads)
  unfolding add_fds add_fd user_ent
  add_fds-Holds pid stat ents [] g k = g.1
  add_fds-Holds pid stat ents (fd_read_failed ∷ reads) g k = tt
  add_fds-Holds pid stat ents (fd_entry name link ∷ reads) g k =
      Holds-bind (Good pid) (AllEnts P)
        (add_fd stats pid stat ents (atoi (binary_to_string name)) link) _
        (add_fd-Holds (atoi (binary_to_string name)) refl)
        λ (stat', ents') e g'. add_fds-Holds pid stat' ents' reads g' λ ino ent p o.
          k ino ent p (record {
            fd_name = o.fd_name;
            link = o.link;
            stat = o.stat;
            read = inr o.read;
            number = o.number;
            socket = o.socket;
            nonzero = o.nonzero;
            stat_file = o.stat_file;
            entry = o.entry;
          })
    where
      add_fd-Holds :
          (parsed : ℕ × Bool)
          → atoi (binary_to_string name) ≡ parsed
          → Holds (Good pid) (add_fd stats pid stat ents parsed link)
      add_fd-Holds (fd, false) e = g
      add_fd-Holds (fd, true) e =
          add_link-Holds pid fd stat ents link g λ lnk ino st same socket nonzero file.
            k ino (user_ent stats ino fd pid st) refl (record {
              fd_name = name;
              link = lnk;
              stat = st;
              read = inl (ap (fd_entry name) (sym same));
              number = e;
              socket = socket;
              nonzero = nonzero;
              stat_file = file;
              entry = refl;
            })

  add_fd_dir-Holds :
      (pid : ℕ) (ents : UserEnts) (dir : FdDir)
      → AllEnts P ents
      → ((fds : List FdRead) (ino : ℕ) (ent : UserEnt)
          → dir ≡ opened fds
          → ent.pid ≡ pid
          → OwnsSocket stats fds ino ent
          → P ino ent)
      → Holds (AllEnts P) (add_fd_dir stats pid ents dir)
  unfolding add_fd_dir
  add_fd_dir-Holds pid ents stat_failed a k = tt
  add_fd_dir-Holds pid ents not_a_directory a k = a
  add_fd_dir-Holds pid ents access_denied a k = a
  add_fd_dir-Holds pid ents open_failed a k = tt
  add_fd_dir-Holds pid ents (opened fds) a k =
      add_fds-Holds pid none ents fds (tt, a) (λ ino ent. k fds ino ent refl)

  add_process-Holds :
      (self : ℕ) (ents : UserEnts) (dir : FdDir) (parsed : ℕ × Bool)
      → AllEnts P ents
      → ((pid : ℕ) (fds : List FdRead) (ino : ℕ) (ent : UserEnt)
          → parsed ≡ (pid, true)
          → (pid == self) ≡ false
          → dir ≡ opened fds
          → ent.pid ≡ pid
          → OwnsSocket stats fds ino ent
          → P ino ent)
      → Holds (AllEnts P) (add_process stats self ents dir parsed)
  unfolding add_process
  add_process-Holds self ents dir (pid, false) a k = a
  add_process-Holds self ents dir (pid, true) a k = elim (Bool-cases (pid == self)) [
    | inl itself ↦ rw (itself, add_process) a
    | inr other ↦
        rw (other, add_process)
          (add_fd_dir-Holds pid ents dir a (λ fds ino ent. k pid fds ino ent refl other))
  ]

  add_processes-Holds :
      (self : ℕ) (ents : UserEnts) (reads : List ProcRead)
      → AllEnts P ents
      → ((ino : ℕ) (ent : UserEnt) → ComesFromProc stats self reads ino ent → P ino ent)
      → Holds (AllEnts P) (add_processes stats self ents reads)
  unfolding add_processes
  add_processes-Holds self ents [] a k = a
  add_processes-Holds self ents (proc_read_failed ∷ reads) a k = tt
  add_processes-Holds self ents (proc_entry e ∷ reads) a k =
      Holds-bind (AllEnts P) (AllEnts P)
        (if e.is_directory
          then add_process stats self ents e.fd_dir (atoi (binary_to_string e.name))
          else ok ents)
        _
        (elim (Bool-cases e.is_directory) [
          | inl directory ↦ rw directory (
              add_process-Holds self ents e.fd_dir (atoi (binary_to_string e.name)) a
                λ pid fds ino ent number other dir p owns. k ino ent (record {
                  process = e;
                  fds = fds;
                  read = inl refl;
                  directory = directory;
                  number = number ∙ ap (λ (n : ℕ). (n, true)) (sym p);
                  not_self = rw (sym p) at other;
                  fd_dir = dir;
                  owns = owns;
                }))
          | inr file ↦ rw file a
        ])
        λ ents' same a'. add_processes-Holds self ents' reads a' λ ino ent c. k ino ent (record {
          process = c.process;
          fds = c.fds;
          read = inr c.read;
          directory = c.directory;
          number = c.number;
          not_self = c.not_self;
          fd_dir = c.fd_dir;
          owns = c.owns;
        })

-- Every entry of a successful scan stands under the inode of a socket link that was read in the
-- file descriptors of a directory of /proc named by a number, not the agent's own. It holds that
-- number, the number of the descriptor, and the name, parent and group of the process's stat file.
pub build_user_entries-ComesFromProc :
    (stats : ℕ → Option Text) (self : ℕ) (reads : List ProcRead) (ents : UserEnts) (ino : ℕ)
    (ent : UserEnt)
    → build_user_entries stats self (some reads) ≡ ok ents
    → lookup ino ents ≡ some ent
    → ComesFromProc stats self reads ino ent
unfolding build_user_entries
build_user_entries-ComesFromProc stats self reads ents ino ent e found =
    subst (λ (o : Outcome UserEnts). Holds (AllEnts (ComesFromProc stats self reads)) o) e
      (add_processes-Holds stats (ComesFromProc stats self reads) self [] reads
        (λ k v none_there. absurd (nothing k v none_there)) (λ k v c. c))
      ino ent found
