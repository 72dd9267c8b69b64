-- ===== src/Printk/Format/Prints.antt =====
-- `kvsnprintf` puts out the text of the pieces of its format.
