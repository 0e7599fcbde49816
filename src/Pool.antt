-- ===== src/Pool.antt =====
-- The memory pool of ebot.c: `mpool`, slabs of one size in one block of memory, on a doubly linked
-- list with the free slabs in front and the busy ones behind.
pub mod Links
pub mod Get
mod Tests
pub mod Locked
pub mod Session
pub mod Moves
pub mod Accounts
pub mod Serve
pub mod Dump
pub mod Growing
pub mod New
pub mod Return
pub mod Put
pub mod Valid
use ebot.Base.{
  ℕ, zero, suc, ◌+◌, ◌-◌, ◌*◌, ◌%◌, ◌^◌, Bool, true, false, ◌&&◌, Option, none, some, ltb, leb,
  ◌==◌, if◌then◌else◌, Run, ok, exits, fault, waits, ◌>>=◌,
}

-- `mslab`. Pointers are addresses, and `NULL` is 0.
pub record Slab : Type 0 where
  pub used : Bool
  pub prev : ℕ
  pub next : ℕ

abbrev pub null : ℕ
null = 0

-- `sizeof(mslab)`, with its padding, which is where `data` begins
abbrev pub header : ℕ
header = 24

-- `mpool`. `slabs` is what stands at each address from `mem` on, `held` the state of `lock`.
pub record Pool : Type 0 where
  pub mem : ℕ
  pub size : ℕ
  pub head : ℕ
  pub tail : ℕ
  pub slab_num : ℕ
  pub slab_size : ℕ
  pub slab_used : ℕ
  pub slabs : ℕ → Slab
  pub held : Bool

abbrev pub update : (ℕ → Slab) → ℕ → Slab → ℕ → Slab
update m a s b = if b == a then s else m b

-- A slab at `a` lies in the block that the pool owns.
abbrev pub inside : Pool → ℕ → Bool
inside mp a = leb mp.mem a && leb (a + header) (mp.mem + mp.size)

-- `*a`
pub load : Pool → ℕ → Run Slab
load mp a = if inside mp a then ok (mp.slabs a) else fault

pub store : Pool → ℕ → Slab → Run Pool
store mp a s = if inside mp a then ok (record mp { slabs = update mp.slabs a s }) else fault

-- `a->used = b`, `a->prev = p`, `a->next = p`
pub set_used : Pool → ℕ → Bool → Run Pool
unfolding store
set_used mp a b = store mp a (record (mp.slabs a) { used = b })

pub set_prev : Pool → ℕ → ℕ → Run Pool
unfolding store
set_prev mp a p = store mp a (record (mp.slabs a) { prev = p })

pub set_next : Pool → ℕ → ℕ → Run Pool
unfolding store
set_next mp a p = store mp a (record (mp.slabs a) { next = p })

abbrev pub stride : Pool → ℕ
stride mp = header + mp.slab_size

-- The `do … while` of `mpool_new`: puts the slab at `cur` in front, and goes on to the next.
pub new_loop : ℕ → Pool → ℕ → Run Pool
unfolding set_prev set_next
new_loop zero mp cur = waits
new_loop (suc k) mp cur = do
  mp ←
      if mp.head == null
      then ok (record mp { tail = cur })
      else (do mp' ← set_prev mp mp.head cur; set_next mp' cur mp.head)
  let mp = record mp { head = cur }
  let more = (do mp' ← set_prev mp cur (cur + stride mp); new_loop k mp' (cur + stride mp))
  if ltb (cur + stride mp) (mp.mem + mp.size) then more else set_prev mp cur null

-- `mem` is where the block behind the `mpool` begins, or `NULL` if `malloc` fails. The block is
-- zeroed. `pthread_mutex_init` returns no negative number, so its test never fails.
pub new : (slab_num slab_size mem : ℕ) → Run (Option Pool)
new slab_num slab_size mem = if mem == null then ok none else do
  mp ←
      new_loop (slab_num + 1)
        (record {
          mem = mem;
          size = slab_num * (header + slab_size);
          head = null;
          tail = null;
          slab_num = slab_num;
          slab_size = slab_size;
          slab_used = 0;
          slabs = λ _. record { used = false; prev = null; next = null };
          held = false;
        })
        mem
  ok (some mp)

-- The pointer to `s->data`, or `none` for `NULL`.
unfoldable pub get : Pool → Run (Option ℕ × Pool)
unfolding load set_used set_prev set_next
get mp = do
  let s = mp.head
  slab ← load mp s
  if slab.used then ok (none, mp) else (do
    mp ← set_used mp s true
    let mp = record mp { slab_used = (mp.slab_used + 1) % 2 ^ 32 }
    let mp = record mp { head = slab.next }
    mp ← set_prev mp slab.next null
    mp ← set_next mp mp.tail s
    mp ← set_next mp s null
    mp ← set_prev mp s mp.tail
    ok (some (s + header), record mp { tail = s }))

-- Takes the slab at `s` out of the list: the `if (s->next == NULL)` of `mpool_put`.
pub unlink : Pool → ℕ → Slab → Run Pool
unfolding set_prev set_next
unlink mp s slab =
    if slab.next == null
    then (do mp ← set_next mp slab.prev null; ok (record mp { tail = slab.prev }))
    else (do mp ← set_next mp slab.prev slab.next; set_prev mp slab.next slab.prev)

-- A failed `assert` ends the program.
pub put : Pool → ℕ → Run Pool
unfolding load set_used set_prev set_next unlink
put mp p =
    if ltb mp.mem p && ltb p (mp.mem + mp.size)
    then (do
      let s = p - header
      slab ← load mp s
      if slab.used
          then (do
            let mp = record mp { slab_used = (mp.slab_used + 2 ^ 32 - 1) % 2 ^ 32 }
            mp ← set_used mp s false
            if slab.prev == null then ok mp else (do
              mp ← unlink mp s slab
              mp ← set_prev mp s null
              mp ← set_next mp s mp.head
              mp ← set_prev mp mp.head s
              ok (record mp { head = s })))
          else ok mp)
    else exits

-- `pthread_mutex_lock` on a mutex that is held does not come back.
unfoldable pub lock : Pool → Run Pool
lock mp = if mp.held then waits else ok (record mp { held = true })

unfoldable pub unlock : Pool → Pool
unlock mp = record mp { held = false }

unfoldable pub get_with_lock : Pool → Run (Option ℕ × Pool)
unfolding lock unlock
get_with_lock mp = do mp ← lock mp; (p, mp) ← get mp; ok (p, unlock mp)

pub put_with_lock : Pool → ℕ → Run Pool
unfolding lock unlock
put_with_lock mp p = do mp ← lock mp; mp ← put mp p; ok (unlock mp)
