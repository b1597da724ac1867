-- ===== src/Gc/GarbageCollector.antt =====
-- 3FD/gc.h, 3FD/gc_garbagecollector.cpp: the collector's interface, which sends messages, and its
-- thread, which executes them. The queue is the list of the messages that wait, in their order.
pub mod Lifetime
mod Examples
use fd.Base.{
  ℕ, Bool, true, false, List, [], ◌∷◌, ◌++◌, Run, ok, ◌>>=◌, if◌then◌else◌, Option, none, some,
}
use fd.Gc.MemoryDigraph.{MemoryDigraph, Environment, shrink_vertex_pool}
use fd.Gc.Messages.{
  Message, new_object_msg, reference_update_msg, reference_release_msg, aborted_object_msg,
  sptr_registration_msg, sptr_copy_registration_msg, sptr_unregistration_msg, consume,
}

pub record GarbageCollector : Type 0 where
  pub memory_digraph : MemoryDigraph
  pub messages_queue : List Message

-- `m_messagesQueue.Add`
unfoldable pub add : GarbageCollector → Message → GarbageCollector
add gc m = record gc { messages_queue = gc.messages_queue ++ m ∷ [] }

unfoldable pub update_reference : GarbageCollector → ℕ → ℕ → GarbageCollector
unfolding add
update_reference gc left_sptr right_sptr = add gc (reference_update_msg left_sptr right_sptr)

unfoldable pub release_reference : GarbageCollector → ℕ → GarbageCollector
unfolding add
release_reference gc sptr = add gc (reference_release_msg sptr)

unfoldable pub register_new_object : GarbageCollector → ℕ → ℕ → ℕ → ℕ → GarbageCollector
unfolding add
register_new_object gc sptr pointed block_size free_callback =
    add gc (new_object_msg sptr pointed block_size free_callback)

unfoldable pub unregister_aborted_object : GarbageCollector → ℕ → GarbageCollector
unfolding add
unregister_aborted_object gc sptr = add gc (aborted_object_msg sptr)

unfoldable pub register_sptr : GarbageCollector → ℕ → ℕ → GarbageCollector
unfolding add
register_sptr gc sptr pointed = add gc (sptr_registration_msg sptr pointed)

unfoldable pub register_sptr_copy : GarbageCollector → ℕ → ℕ → GarbageCollector
unfolding add
register_sptr_copy gc left_sptr right_sptr =
    add gc (sptr_copy_registration_msg left_sptr right_sptr)

unfoldable pub unregister_sptr : GarbageCollector → ℕ → GarbageCollector
unfolding add
unregister_sptr gc sptr = add gc (sptr_unregistration_msg sptr)

-- The allocation gives the block or fails with an exception.
unfoldable pub alloc_memory_and_register :
    Option ℕ → GarbageCollector → ℕ → ℕ → ℕ → Option (ℕ × GarbageCollector)
unfolding register_new_object
alloc_memory_and_register none gc size sptr free_callback = none
alloc_memory_and_register (some p) gc size sptr free_callback =
    some (p, register_new_object gc sptr p size free_callback)

module _ (env : Environment) where
  -- One round of `GCThreadProc`: the queue is emptied, and the pool shrinks unless the event to
  -- terminate was signalled.
  unfoldable pub round : Bool → GarbageCollector → Run GarbageCollector
  round terminate gc = do
    g ← consume env gc.messages_queue gc.memory_digraph
    g' ← if terminate then ok g else shrink_vertex_pool env g
    ok (record { memory_digraph = g'; messages_queue = [] })

  -- The loop: before each round some messages come in, `last` before the one that follows on the
  -- event. An exception ends the loop, and so does anything else that stops a round.
  unfoldable pub gc_thread_proc :
      List (List Message) → List Message → GarbageCollector → Run GarbageCollector
  unfolding round
  gc_thread_proc [] last gc = round true (record gc { messages_queue = gc.messages_queue ++ last })
  gc_thread_proc (ms ∷ rest) last gc = do
    gc' ← round false (record gc { messages_queue = gc.messages_queue ++ ms })
    gc_thread_proc rest last gc'
