-- ===== src/Options/Build.antt =====
-- What `OptionsBuilder::build` of src/options.rs makes of the sizes that it is given.
use native.Mathlib.Nat.{pow-le-pow_right}
use rnet.Prelude.{
  ℕ, ◌*◌, ◌^◌, ◌≤◌, ◌<◌, ◌≡◌, ◌⊎◌, inl, inr, refl, ap, sym, subst, Option, none, some, ◌∙◌, Bool,
  arith, leb, ltb, Bool-cases,
}
use rnet.Io.{ret}
use rnet.Options.{
  default_options, or_keep, or_keep_some, Options, OptionsBuilder, normalize_buffer_size,
  batch_size, fill, build,
}
use rnet.Options.Power.{ceil_to_power_of_two_lem, normalize_buffer_size_lem}

pub build_of :
    (oc : Bool) (b : OptionsBuilder) (i j k : ℕ)
    → batch_size oc (fill b).max_batch_size ≡ ret i
    → normalize_buffer_size oc (fill b).read_buffer_cap ≡ ret j
    → normalize_buffer_size oc (fill b).write_buffer_cap ≡ ret k
    → build oc b
      ≡ ret (record (fill b) { max_batch_size = i; read_buffer_cap = j; write_buffer_cap = k })
unfolding build
build_of oc b i j k p q r = rw (p, q, r)

-- A value that was given, or what it falls back on.
abbrev pub Chosen {ℓ} : {A : Type ℓ} → Option A → A → A → Type ℓ
Chosen none fallback a = a ≡ fallback
Chosen (some b) fallback a = a ≡ b

-- The same for an option that may be missing.
abbrev pub ChosenSome {ℓ} : {A : Type ℓ} → Option A → Option A → Option A → Type ℓ
ChosenSome none fallback a = a ≡ fallback
ChosenSome (some b) fallback a = a ≡ some b

-- The options of the builder, with `base` for what was not given; three sizes are left out.
pub record Keeps (b : OptionsBuilder) (base o : Options) : Type 0 where
  pub lb : Chosen b.lb base.lb o.lb
  pub reuse_addr : Chosen b.reuse_addr base.reuse_addr o.reuse_addr
  pub reuse_port : Chosen b.reuse_port base.reuse_port o.reuse_port
  pub bind_to_device : Chosen b.bind_to_device base.bind_to_device o.bind_to_device
  pub num_event_loop : Chosen b.num_event_loop base.num_event_loop o.num_event_loop
  pub lock_os_thread : Chosen b.lock_os_thread base.lock_os_thread o.lock_os_thread
  pub ticker : Chosen b.ticker base.ticker o.ticker
  pub tcp_keepalive : ChosenSome b.tcp_keepalive base.tcp_keepalive o.tcp_keepalive
  pub tcp_keep_interval : ChosenSome b.tcp_keep_interval base.tcp_keep_interval o.tcp_keep_interval
  pub tcp_keep_count : ChosenSome b.tcp_keep_count base.tcp_keep_count o.tcp_keep_count
  pub tcp_no_delay : Chosen b.tcp_no_delay base.tcp_no_delay o.tcp_no_delay
  pub socket_recv_buffer : Chosen b.socket_recv_buffer base.socket_recv_buffer o.socket_recv_buffer
  pub socket_send_buffer : Chosen b.socket_send_buffer base.socket_send_buffer o.socket_send_buffer
  pub log_path : ChosenSome b.log_path base.log_path o.log_path
  pub log_level : Chosen b.log_level base.log_level o.log_level

-- A size that becomes a power of two: the smallest from `least` on that is not below it, or a default
-- if it is 0.
abbrev pub RoundsUp : (least default size rounded : ℕ) → Type 0
RoundsUp least default size rounded =
    ((size ≡ 0) × (rounded ≡ default))
    ⊎ ((k : ℕ) × (rounded ≡ 2 ^ k)
        × (0 < size)
        × (least ≤ rounded)
        × (size ≤ rounded)
        × ((rounded ≡ least) ⊎ (rounded < 2 * size)))

or_keep-Chosen {ℓ} : {A : Type ℓ} (o : Option A) (a : A) → Chosen o a (or_keep o a)
or_keep-Chosen none a = refl
or_keep-Chosen (some b) a = refl

or_keep_some-ChosenSome {ℓ} : {A : Type ℓ} (o a : Option A) → ChosenSome o a (or_keep_some o a)
or_keep_some-ChosenSome none a = refl
or_keep_some-ChosenSome (some b) a = refl

Chosen-or_keep {ℓ} : {A : Type ℓ} (o : Option A) (a b : A) → Chosen o a b → or_keep o a ≡ b
Chosen-or_keep none a b e = sym e
Chosen-or_keep (some c) a b e = sym e

normalize-RoundsUp :
    (oc : Bool) (size : ℕ)
    → size ≤ 2 ^ 63
    → (n : ℕ) × (normalize_buffer_size oc size ≡ ret n) × RoundsUp 1024 65536 size n
unfolding normalize_buffer_size
normalize-RoundsUp oc size h = elim (Bool-cases (leb size 0)) [
  | inl none_asked ↦ (2 ^ 16, rw none_asked, inl (ground arith, refl))
  | inr asked ↦
      let positive : 0 < size = ground arith in
      elim (normalize_buffer_size_lem oc size h) [
        | inl (nothing, found) ↦ absurd (omega arith)
        | inr (k, found, big, above, least) ↦ (
          2 ^ k,
          unfold normalize_buffer_size in found,
          inr (k, refl, positive, big, above, least),
        )
      ]
]

batch-RoundsUp :
    (oc : Bool) (size : ℕ)
    → size ≤ 2 ^ 63
    → (n : ℕ) × (batch_size oc size ≡ ret n) × RoundsUp 2 1048576 size n
unfolding batch_size
batch-RoundsUp oc size h = elim (Bool-cases (ltb 0 size)) [
  | inr none_asked ↦ (2 ^ 20, rw none_asked, inl (ground arith, refl))
  | inl asked ↦
      let positive : 0 < size = ground arith in
      let (k, found, one, above, least) = ceil_to_power_of_two_lem oc size h in
      let base = pow-le-pow_right {n = 2} (omega arith) one in
      (
        2 ^ k,
        rw (asked, found),
        inr (
          k,
          refl,
          positive,
          omega arith,
          above,
          elim least [ inl same ↦ inl (ap (◌^◌ 2) same) | inr below ↦ inr below ],
        ),
      )
]

-- `build` keeps every option that the builder was given, and falls back for the others on its base
-- options, or on the defaults without such; but for three sizes, which are powers of two: each is the
-- smallest, from 2 on for the batch size and from 1024 on for the two buffer sizes, that is not below
-- the size given or fallen back on, or 2^20 or 2^16 if that is 0. The three sizes are at most 2^63.
pub build_lem :
    (oc : Bool) (b : OptionsBuilder) (base : Options) (batch read write : ℕ)
    → Chosen b.base_options default_options base
    → Chosen b.edge_triggered_io_chunk base.max_batch_size batch
    → Chosen b.read_buffer_cap base.read_buffer_cap read
    → Chosen b.write_buffer_cap base.write_buffer_cap write
    → batch ≤ 2 ^ 63
    → read ≤ 2 ^ 63
    → write ≤ 2 ^ 63
    → (o : Options) × (build oc b ≡ ret o)
      × Keeps b base o
      × RoundsUp 2 1048576 batch o.max_batch_size
      × RoundsUp 1024 65536 read o.read_buffer_cap
      × RoundsUp 1024 65536 write o.write_buffer_cap
unfolding fill
build_lem oc b base batch read write is_base is_batch is_read is_write small_batch small_read
      small_write =
    let same = Chosen-or_keep b.base_options default_options base is_base in
    let fell_back = or_keep b.base_options default_options in
    let e_batch : (fill b).max_batch_size ≡ batch =
      ap (λ (o : Options). or_keep b.edge_triggered_io_chunk o.max_batch_size) same
      ∙ Chosen-or_keep b.edge_triggered_io_chunk base.max_batch_size batch is_batch in
    let e_read : (fill b).read_buffer_cap ≡ read =
      ap (λ (o : Options). or_keep b.read_buffer_cap o.read_buffer_cap) same
      ∙ Chosen-or_keep b.read_buffer_cap base.read_buffer_cap read is_read in
    let e_write : (fill b).write_buffer_cap ≡ write =
      ap (λ (o : Options). or_keep b.write_buffer_cap o.write_buffer_cap) same
      ∙ Chosen-or_keep b.write_buffer_cap base.write_buffer_cap write is_write in
    let (i, got_i, rounds_i) = batch-RoundsUp oc batch small_batch in
    let (j, got_j, rounds_j) = normalize-RoundsUp oc read small_read in
    let (k, got_k, rounds_k) = normalize-RoundsUp oc write small_write in
    (
      record (fill b) { max_batch_size = i; read_buffer_cap = j; write_buffer_cap = k },
      build_of oc b i j k (ap (batch_size oc) e_batch ∙ got_i)
          (ap (normalize_buffer_size oc) e_read ∙ got_j)
          (ap (normalize_buffer_size oc) e_write ∙ got_k),
      subst
          (λ (o : Options).
            Keeps b o
              (record (fill b) { max_batch_size = i; read_buffer_cap = j; write_buffer_cap = k }))
          same
          record {
            lb = or_keep-Chosen b.lb fell_back.lb;
            reuse_addr = or_keep-Chosen b.reuse_addr fell_back.reuse_addr;
            reuse_port = or_keep-Chosen b.reuse_port fell_back.reuse_port;
            bind_to_device = or_keep-Chosen b.bind_to_device fell_back.bind_to_device;
            num_event_loop = or_keep-Chosen b.num_event_loop fell_back.num_event_loop;
            lock_os_thread = or_keep-Chosen b.lock_os_thread fell_back.lock_os_thread;
            ticker = or_keep-Chosen b.ticker fell_back.ticker;
            tcp_keepalive = or_keep_some-ChosenSome b.tcp_keepalive fell_back.tcp_keepalive;
            tcp_keep_interval =
                or_keep_some-ChosenSome b.tcp_keep_interval fell_back.tcp_keep_interval;
            tcp_keep_count = or_keep_some-ChosenSome b.tcp_keep_count fell_back.tcp_keep_count;
            tcp_no_delay = or_keep-Chosen b.tcp_no_delay fell_back.tcp_no_delay;
            socket_recv_buffer = or_keep-Chosen b.socket_recv_buffer fell_back.socket_recv_buffer;
            socket_send_buffer = or_keep-Chosen b.socket_send_buffer fell_back.socket_send_buffer;
            log_path = or_keep_some-ChosenSome b.log_path fell_back.log_path;
            log_level = or_keep-Chosen b.log_level fell_back.log_level;
          },
      rounds_i,
      rounds_j,
      rounds_k,
    )
