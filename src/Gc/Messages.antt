-- ===== src/Gc/Messages.antt =====
-- 3FD/gc_messages.h, 3FD/gc_messages.cpp, and the message loop of 3FD/gc_garbagecollector.cpp.
use fd.Base.{ℕ, true, false, List, [], ◌∷◌, Run, ok, ◌>>=◌}
use fd.Gc.MemoryDigraph.{
  MemoryDigraph, Environment, add_regular_vertex, reset_pointer, reset_pointer_as, release_pointer,
  add_pointer, add_pointer_on_copy, remove_pointer,
}

-- The classes of messages, with their members.
pub data Message : Type 0 where
  new_object_msg : (sptr_object_addr pointed_addr block_size free_callback : ℕ) → Message
  reference_update_msg : (left_sptr_obj_addr right_sptr_obj_addr : ℕ) → Message
  reference_release_msg : (sptr_obj_addr : ℕ) → Message
  aborted_object_msg : (sptr_obj_addr : ℕ) → Message
  sptr_registration_msg : (sptr_obj_addr pointed_addr : ℕ) → Message
  sptr_copy_registration_msg : (left_sptr_obj_addr right_sptr_obj_addr : ℕ) → Message
  sptr_unregistration_msg : (sptr_obj_addr : ℕ) → Message

module _ (env : Environment) where
  -- `Execute`
  unfoldable pub execute : Message → MemoryDigraph → Run MemoryDigraph
  execute (new_object_msg sptr pointed size callback) graph = do
    graph' ← add_regular_vertex env graph pointed size callback
    reset_pointer env graph' sptr pointed true
  execute (reference_update_msg left right) graph = reset_pointer_as env graph left right
  execute (reference_release_msg sptr) graph = release_pointer env graph sptr
  execute (aborted_object_msg sptr) graph = reset_pointer env graph sptr 0 false
  execute (sptr_registration_msg sptr pointed) graph = add_pointer env graph sptr pointed
  execute (sptr_copy_registration_msg left right) graph = add_pointer_on_copy env graph left right
  execute (sptr_unregistration_msg sptr) graph = remove_pointer env graph sptr

  -- The inner loop of `GCThreadProc`, on the messages in the order of arrival.
  unfoldable pub consume : List Message → MemoryDigraph → Run MemoryDigraph
  unfolding execute
  consume [] graph = ok graph
  consume (m ∷ ms) graph = do graph' ← execute m graph; consume ms graph'
