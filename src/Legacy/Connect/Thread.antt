-- ===== src/Legacy/Connect/Thread.antt =====
-- The thread of the main loop and its counter (bluez/gattlib_connect.c).
use gattlibcpp.Base.{
  ℕ, suc, ◌+◌, ◌-◌, ◌%◌, ◌^◌, ◌≡◌, refl, sym, ap, subst, ◌∙◌, true, false, Option, none, some, List,
  [], ◌∷◌, ◌==◌, if◌then◌else◌, length, inl, inr, Bool-cases, arith,
}
use gattlibcpp.World.{Text}
use gattlibcpp.World.Codes.{success}
use gattlibcpp.Legacy.Connect.{
  SecLevel, sec_sdp, sec_low, sec_medium, sec_high, AddressType, Legacy, ConnectAnswers, IoConnect,
  use_thread, begin_io, io_call, allocate, to_address, initialize_connection, disconnect_legacy,
}

-- A connection that is begun, with what the system answers.
pub record Attempt : Type 0 where
  pub answers : ConnectAnswers
  pub thread : answers.thread_created ≡ true
  pub dst : Option Text
  pub dest_type : AddressType
  pub sec_level : SecLevel
  pub psm : ℕ
  pub mtu : ℕ

abbrev pub attempt : Attempt → Legacy → Legacy
attempt a l = (initialize_connection a.answers a.dst a.dest_type a.sec_level a.psm a.mtu l).1

abbrev pub attempts : List Attempt → Legacy → Legacy
attempts [] l = l
attempts (a ∷ rest) l = attempts rest (attempt a l)

-- Nothing behind the start of the thread changes its counters.
abbrev SameThread : Legacy → Legacy → Type 0
SameThread l m =
    (m.thread_ref ≡ l.thread_ref)
    × (m.threads_started ≡ l.threads_started)
    × (m.loops_quit ≡ l.loops_quit)

begin_io-SameThread :
    (answers : ConnectAnswers) (io : IoConnect) (o : Option ℕ) (l : Legacy)
    → SameThread l (begin_io answers io o l).1
begin_io-SameThread answers io none l = (refl, refl, refl)
begin_io-SameThread answers io (some c) l = elim (Bool-cases answers.io_taken) [
  | inl e ↦ rw e (refl, refl, refl)
  | inr e ↦ rw e (refl, refl, refl)
]

memory-SameThread :
    (answers : ConnectAnswers) (io : IoConnect) (l : Legacy)
    → SameThread l
        (if answers.context_memory
          then begin_io answers io answers.connection_memory l
          else (none, l)).1
memory-SameThread answers io l = elim (Bool-cases answers.context_memory) [
  | inl e ↦ rw e (begin_io-SameThread answers io answers.connection_memory l)
  | inr e ↦ rw e (refl, refl, refl)
]

allocate-SameThread :
    (answers : ConnectAnswers) (dst : Text) (t : AddressType) (sec : SecLevel) (psm mtu : ℕ)
    (l : Legacy)
    → SameThread l (allocate answers dst t sec psm mtu l).1
allocate-SameThread answers dst t sec_sdp psm mtu l = (refl, refl, refl)
allocate-SameThread answers dst t sec_low psm mtu l =
    memory-SameThread answers (io_call dst t sec_low psm mtu) l
allocate-SameThread answers dst t sec_medium psm mtu l =
    memory-SameThread answers (io_call dst t sec_medium psm mtu) l
allocate-SameThread answers dst t sec_high psm mtu l =
    memory-SameThread answers (io_call dst t sec_high psm mtu) l

to_address-SameThread :
    (answers : ConnectAnswers) (dst : Option Text) (t : AddressType) (sec : SecLevel) (psm mtu : ℕ)
    (l before : Legacy)
    → SameThread l (to_address answers dst t sec psm mtu (some l) before).1
to_address-SameThread answers none t sec psm mtu l before = (refl, refl, refl)
to_address-SameThread answers (some dst) t sec psm mtu l before =
    elim (Bool-cases (answers.str2ba dst)) [
      | inl e ↦ rw e (allocate-SameThread answers dst t sec psm mtu l)
      | inr e ↦ rw e (refl, refl, refl)
    ]

attempt_lem :
    (a : Attempt) (l : Legacy)
    → l.thread_ref ≡ 0
    → ((attempt a l).thread_ref ≡ 0)
      × ((attempt a l).threads_started ≡ suc l.threads_started)
      × ((attempt a l).loops_quit ≡ l.loops_quit)
unfolding initialize_connection
attempt_lem a l zero =
    let m = record l { threads_started = suc l.threads_started } in
    let another : use_thread a.answers l ≡ some m =
      let none_yet : (l.thread_ref == 0) ≡ true = ground arith in rw (none_yet, a.thread) refl in
    let (r, t, q) = to_address-SameThread a.answers a.dst a.dest_type a.sec_level a.psm a.mtu m l in
    subst
      (λ o.
        let n = (to_address a.answers a.dst a.dest_type a.sec_level a.psm a.mtu o l).1 in
        (n.thread_ref ≡ 0)
        × (n.threads_started ≡ suc l.threads_started)
        × (n.loops_quit ≡ l.loops_quit))
      (sym another) (r ∙ zero, t, q)

attempts_lem :
    (tries : List Attempt) (l : Legacy)
    → l.thread_ref ≡ 0
    → ((attempts tries l).thread_ref ≡ 0)
      × ((attempts tries l).threads_started ≡ length tries + l.threads_started)
      × ((attempts tries l).loops_quit ≡ l.loops_quit)
attempts_lem [] l zero = (zero, omega arith, refl)
attempts_lem (a ∷ tries) l zero =
    let (r, t, q) = attempt_lem a l zero in
    let (r', t', q') = attempts_lem tries (attempt a l) r in (r', omega arith, q' ∙ q)

disconnect_lem :
    (c : ℕ) (w : Legacy)
    → w.connections c ≡ true
    → w.thread_ref ≡ 0
    → (m : Legacy) × (disconnect_legacy c w ≡ some (success, m))
      × (m.thread_ref ≡ 2 ^ 32 - 1)
      × (m.loops_quit ≡ w.loops_quit)
unfolding disconnect_legacy
disconnect_lem c w there zero =
    let ref = (w.thread_ref + 2 ^ 32 - 1) % 2 ^ 32 in
    let below : ref ≡ 2 ^ 32 - 1 = ground arith in
    let used : (ref == 0) ≡ false = ground arith in
    (
      record w {
        connections = λ x. if x == c then false else w.connections x;
        thread_ref = ref;
        loops_quit = if ref == 0 then suc w.loops_quit else w.loops_quit;
      },
      rw there refl,
      below,
      ap (λ b. if b then suc w.loops_quit else w.loops_quit) used,
    )

-- The counter of the thread is never raised from 0: where it is 0 and the thread can be created each time,
-- any number of connections that are begun, taken or not, start one thread each. The first disconnection
-- of a connection in memory then takes the counter below 0, to -1, and tells no loop to quit.
pub attempts-disconnect_legacy :
    (tries : List Attempt) (l : Legacy) (c : ℕ)
    → l.thread_ref ≡ 0
    → (attempts tries l).connections c ≡ true
    → ((attempts tries l).threads_started ≡ length tries + l.threads_started)
      × ((m : Legacy) × (disconnect_legacy c (attempts tries l) ≡ some (success, m))
          × (m.thread_ref ≡ 2 ^ 32 - 1)
          × (m.loops_quit ≡ l.loops_quit))
unfolding disconnect_legacy
attempts-disconnect_legacy tries l c zero there =
    let (r, t, q) = attempts_lem tries l zero in
    let (m, e, r', q') = disconnect_lem c (attempts tries l) there r in (t, (m, e, r', q' ∙ q))
