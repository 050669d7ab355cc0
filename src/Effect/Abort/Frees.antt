-- ===== src/Effect/Abort/Frees.antt =====
-- An abort frees the prompt of its handler, with all that stands on it.
use libmprompt.Prompt.State
