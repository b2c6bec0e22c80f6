-- ===== src/Poll/Requests.antt =====
-- Every request that the polling loop sends is a read of one register.
use open_machine_protocol.Prelude.{
  ℕ, ◌/◌, ◌%◌, ◌≤◌, ◌<◌, ◌≡◌, ◌≢◌, refl, ap, sym, subst, ◌∙◌, inl, inr, String, Bool, true, false,
  List, [], ◌∷◌, arith, All, Bool-cases, if◌then◌else◌,
}
use open_machine_protocol.Prelude.Int.{ℤ, pos, negsuc}
use open_machine_protocol.Modbus.{
  Result, ok, raised, ◌>>=◌, resolve_address, reg_count, build_read_tcp, build_read_rtu, crc16,
}
use open_machine_protocol.Modbus.Address.{resolve_address_iff}
use open_machine_protocol.Modbus.Frames.{IsRead}
use open_machine_protocol.Poll.Reading.{request_tcp, Names-bounds, reg_count-bound}
use open_machine_protocol.Poll.Poller.{Register, Setup, request_of}

-- A frame of the master, in bytes.
abbrev pub AreBytes : List ℕ → Type 0
AreBytes frame = All (λ b. b < 256) frame

-- The frame asks, with one of the two read functions, for one register or the two of a long value.
pub record IsReadRequest (setup : Setup) (frame : List ℕ) : Type 0 where
  pub tid : ℕ
  pub func : ℕ
  pub offset : ℕ
  pub count : ℕ
  pub crc : List ℕ
  pub reads : IsRead func
  pub in_bank : offset < 10000
  pub some_register : 1 ≤ count
  pub no_more : count ≤ 2
  pub bytes : AreBytes frame
  pub written : frame ≡ (
      if setup.is_tcp
      then request_tcp tid setup.unit_id func offset count
      else setup.unit_id ∷ func ∷ offset / 256 ∷ offset % 256 ∷ count / 256 ∷ count % 256 ∷ crc)

build_read_tcp-inv :
    (tid unit func offset count : ℕ) (frame : List ℕ)
    → build_read_tcp tid unit func offset count ≡ ok frame
    → (frame ≡ request_tcp tid unit func offset count)
      × (tid < 65536)
      × (unit < 256)
      × (func < 256)
      × (offset < 65536)
      × (count < 65536)
unfolding build_read_tcp
build_read_tcp-inv tid unit func offset count frame h = ground arith

abbrev pub request_rtu : ℕ → ℕ → ℕ → ℕ → List ℕ → List ℕ
request_rtu unit func offset count crc =
    unit ∷ func ∷ offset / 256 ∷ offset % 256 ∷ count / 256 ∷ count % 256 ∷ crc

build_read_rtu-inv :
    (unit func offset count : ℕ) (frame : List ℕ)
    → build_read_rtu unit func offset count ≡ ok frame
    → (c : ℕ) × (frame ≡ request_rtu unit func offset count (c % 256 ∷ c / 256 ∷ []))
      × (unit < 256)
      × (func < 256)
      × (offset < 65536)
      × (count < 65536)
      × (c < 65536)
unfolding build_read_rtu
build_read_rtu-inv unit func offset count frame h = (
  crc16 (unit ∷ func ∷ offset / 256 ∷ offset % 256 ∷ count / 256 ∷ count % 256 ∷ []),
  ground arith,
  ground arith,
  ground arith,
  ground arith,
  ground arith,
  ground arith,
)

reg_count-pos : (t : String) → 1 ≤ reg_count t
unfolding reg_count
reg_count-pos t = ground arith

negative-ne-ok : (n f o : ℕ) → resolve_address (negsuc n) ≢ ok (f, o)
unfolding resolve_address
negative-ne-ok n f o e = absurd (ground arith)

resolve_address-bounds :
    (a : ℤ) (func offset : ℕ)
    → resolve_address a ≡ ok (func, offset)
    → IsRead func × (offset < 10000)
resolve_address-bounds (pos a) func offset h =
    Names-bounds a func offset ((resolve_address_iff a func offset).0 h)
resolve_address-bounds (negsuc n) func offset h = absurd (negative-ne-ok n func offset h)

frame_bytes :
    (tid unit func offset count : ℕ) (lo hi : ℕ)
    → tid < 65536
    → unit < 256
    → func < 256
    → offset < 65536
    → count < 65536
    → lo < 256
    → hi < 256
    → AreBytes (request_tcp tid unit func offset count)
      × AreBytes (request_rtu unit func offset count (lo ∷ hi ∷ []))
frame_bytes tid unit func offset count lo hi h₁ h₂ h₃ h₄ h₅ h₆ h₇ = omega arith

-- What is built for a resolved register.
built : Setup → ℕ → Register → ℕ → ℕ → Result (List ℕ)
built setup tid reg func offset =
    if setup.is_tcp
    then build_read_tcp tid setup.unit_id func offset (reg_count reg.reg_type)
    else build_read_rtu setup.unit_id func offset (reg_count reg.reg_type)

if_true : {A : Type 0} (b : Bool) (x y : A) → b ≡ true → (if b then x else y) ≡ x
if_true b x y h = rw h refl

if_false : {A : Type 0} (b : Bool) (x y : A) → b ≡ false → (if b then x else y) ≡ y
if_false b x y h = rw h refl

built-IsReadRequest :
    (setup : Setup) (tid : ℕ) (reg : Register) (func offset : ℕ) (frame : List ℕ)
    → IsRead func
    → offset < 10000
    → built setup tid reg func offset ≡ ok frame
    → IsReadRequest setup frame
unfolding built
built-IsReadRequest setup tid reg func offset frame reads small h = elim (Bool-cases setup.is_tcp) [
  | inl tcp ↦
      let (e, t, u, f, o, c) =
        build_read_tcp-inv tid setup.unit_id func offset (reg_count reg.reg_type) frame
          (simp tcp at h) in
      record {
        tid = tid;
        func = func;
        offset = offset;
        count = reg_count reg.reg_type;
        crc = [];
        reads = reads;
        in_bank = small;
        some_register = reg_count-pos reg.reg_type;
        no_more = reg_count-bound reg.reg_type;
        bytes =
            subst AreBytes (sym e)
              (frame_bytes tid setup.unit_id func offset (reg_count reg.reg_type) 0 0 t u f o c
                (omega arith) (omega arith)).0;
        written = e ∙ sym (if_true setup.is_tcp _ _ tcp);
      }
  | inr rtu ↦
      let (crc, e, u, f, o, c, k) =
        build_read_rtu-inv setup.unit_id func offset (reg_count reg.reg_type) frame
          (simp rtu at h) in
      record {
        tid = 0;
        func = func;
        offset = offset;
        count = reg_count reg.reg_type;
        crc = crc % 256 ∷ crc / 256 ∷ [];
        reads = reads;
        in_bank = small;
        some_register = reg_count-pos reg.reg_type;
        no_more = reg_count-bound reg.reg_type;
        bytes =
            subst AreBytes (sym e)
              (frame_bytes 0 setup.unit_id func offset (reg_count reg.reg_type) (crc % 256)
                (crc / 256) (omega arith) u f o c (omega arith) (omega arith)).1;
        written = e ∙ sym (if_false setup.is_tcp _ _ rtu);
      }
]

abbrev with_func : ℕ → List ℕ → Result (ℕ × List ℕ)
with_func f request = ok (f, request)

made :
    (f o func : ℕ) (b : Result (List ℕ)) (frame : List ℕ)
    → (b >>= with_func f) ≡ ok (func, frame)
    → (f ≡ func) × (b ≡ ok frame)
made f o func (ok request) frame h = ground arith
made f o func (raised x) frame h = absurd (ground arith)

made_from :
    (r : Result (ℕ × ℕ)) (build : ℕ → ℕ → Result (List ℕ)) (func : ℕ) (frame : List ℕ)
    → (r >>= λ q. build q.0 q.1 >>= with_func q.0) ≡ ok (func, frame)
    → (offset : ℕ) × (r ≡ ok (func, offset)) × (build func offset ≡ ok frame)
made_from (raised x) build func frame h = absurd (ground arith)
made_from (ok (f, o)) build func frame h =
    let (e, b) = made f o func (build f o) frame h in
    (o, ap (λ k. ok (k, o)) e, subst (λ k. build k o ≡ ok frame) e b)

pub request_of-IsReadRequest :
    (setup : Setup) (tid : ℕ) (reg : Register) (func : ℕ) (frame : List ℕ)
    → request_of setup tid reg ≡ ok (func, frame)
    → IsReadRequest setup frame
unfolding request_of built
request_of-IsReadRequest setup tid reg func frame h =
    let (o, e, b) = made_from (resolve_address reg.address) (built setup tid reg) func frame h in
    let (reads, small) = resolve_address-bounds reg.address func o e in
    built-IsReadRequest setup tid reg func o frame reads small b
